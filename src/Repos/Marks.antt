-- ===== src/Repos/Marks.antt =====
-- backend/app/services/repo_service.py: stars and watchers, with their counters.
pub mod Counts
pub mod Stars
pub mod Watchers
pub mod Runs
use pandahub.Prelude.{
  ℕ, suc, ◌-◌, Option, none, some, Bool, ◌&&◌, List, [], ◌∷◌, ◌++◌, map, is_some, ◌==◌,
}
use pandahub.Session.{Exec, pure, lift, query, modify, commit, ◌>>=◌, ◌>>◌}
use pandahub.Table.{select, delete_where, scalar_one_or_none}
use pandahub.Repos.Store.{
  Repository, RepositoryStar, RepositoryWatcher, RepoStore, satisfies_constraints,
  change_repository,
}

unfoldable pub is_star : (repository_id user_id : ℕ) → RepositoryStar → Bool
is_star repository_id user_id s = s.repository_id == repository_id && s.user_id == user_id

unfoldable pub is_watch : (repository_id user_id : ℕ) → RepositoryWatcher → Bool
is_watch repository_id user_id w = w.repository_id == repository_id && w.user_id == user_id

unfoldable pub set_star_count : ℕ → Repository → Repository
set_star_count count r = record r { star_count = count }

unfoldable pub set_watcher_count : ℕ → Repository → Repository
set_watcher_count count r = record r { watcher_count = count }

unfoldable pub add_star : RepositoryStar → RepoStore → RepoStore
add_star star d = record d { stars = d.stars ++ star ∷ [] }

unfoldable pub add_watcher : RepositoryWatcher → RepoStore → RepoStore
add_watcher watcher d = record d { watchers = d.watchers ++ watcher ∷ [] }

unfoldable pub remove_stars : (repository_id user_id : ℕ) → RepoStore → RepoStore
remove_stars repository_id user_id d = record d {
  stars = delete_where (is_star repository_id user_id) d.stars;
}

unfoldable pub remove_watchers : (repository_id user_id : ℕ) → RepoStore → RepoStore
remove_watchers repository_id user_id d = record d {
  watchers = delete_where (is_watch repository_id user_id) d.watchers;
}

-- Nothing happens if the user has starred the repository.
unfoldable pub star_unless : Option RepositoryStar → ℕ → Repository → Exec RepoStore (Unit {0})
star_unless (some existing) user_id repo = pure tt
star_unless none user_id repo = do
  modify (add_star (record { repository_id = repo.id; user_id = user_id }))
  modify (change_repository repo.id (set_star_count (suc repo.star_count)))
  commit satisfies_constraints

unfoldable pub star_repository : (user_id : ℕ) → Repository → Exec RepoStore (Unit {0})
star_repository user_id repo = do
  rows ← query (λ d. select (is_star repo.id user_id) d.stars)
  existing ← lift (scalar_one_or_none rows)
  star_unless existing user_id repo

-- max(0, repo.star_count - 1), whether or not a row was deleted
unfoldable pub unstar_repository : (user_id : ℕ) → Repository → Exec RepoStore (Unit {0})
unstar_repository user_id repo = do
  modify (remove_stars repo.id user_id)
  modify (change_repository repo.id (set_star_count (repo.star_count - 1)))
  commit satisfies_constraints

unfoldable pub is_starred : (user_id repo_id : ℕ) → Exec RepoStore Bool
is_starred user_id repo_id = do
  rows ← query (λ d. map (λ s. s.user_id) (select (is_star repo_id user_id) d.stars))
  row ← lift (scalar_one_or_none rows)
  pure (is_some row)

unfoldable pub watch_unless : Option RepositoryWatcher → ℕ → Repository → Exec RepoStore (Unit {0})
watch_unless (some existing) user_id repo = pure tt
watch_unless none user_id repo = do
  modify (add_watcher (record { repository_id = repo.id; user_id = user_id }))
  modify (change_repository repo.id (set_watcher_count (suc repo.watcher_count)))
  commit satisfies_constraints

unfoldable pub watch_repository : (user_id : ℕ) → Repository → Exec RepoStore (Unit {0})
watch_repository user_id repo = do
  rows ← query (λ d. select (is_watch repo.id user_id) d.watchers)
  existing ← lift (scalar_one_or_none rows)
  watch_unless existing user_id repo

unfoldable pub unwatch_repository : (user_id : ℕ) → Repository → Exec RepoStore (Unit {0})
unwatch_repository user_id repo = do
  modify (remove_watchers repo.id user_id)
  modify (change_repository repo.id (set_watcher_count (repo.watcher_count - 1)))
  commit satisfies_constraints

unfoldable pub is_watching : (user_id repo_id : ℕ) → Exec RepoStore Bool
is_watching user_id repo_id = do
  rows ← query (λ d. map (λ w. w.user_id) (select (is_watch repo_id user_id) d.watchers))
  row ← lift (scalar_one_or_none rows)
  pure (is_some row)
