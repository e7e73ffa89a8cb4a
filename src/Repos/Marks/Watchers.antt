-- ===== src/Repos/Marks/Watchers.antt =====
-- repo_service.py: watcher_repository and unwatch_repository keep the rows valid; what becomes of the counter.
use pandahub.Prelude.{
  ℕ, suc, ◌-◌, ◌≡◌, refl, inl, inr, Bool, true, false, not, ◌&&◌, arith, any, All, length, ◌==◌,
  if◌then◌else◌, Bool-cases,
}
use pandahub.Exceptions.{ok}
use pandahub.Session.{run}
use pandahub.Table.{select, scalar_one_or_none, unique}
use pandahub.Table.Laws.{In, any-In, select_none, All-In}
use pandahub.Table.Keys.{unique-snoc, all-snoc, select_single, unique_row, All-updated}
use pandahub.Table.Deletes.{unique-delete_where, all-delete_where}
use pandahub.Repos.Store.{
  Repository, RepositoryWatcher, RepoStore, same_id, same_watcher, has_repository, has_user,
  watchers_valid, repositories_valid, satisfies_constraints, change_repository,
}
use pandahub.Repos.Valid.{HasWatcherCount, IsValid, KeepsColumns, change-IsValid, has_repository-In}
use pandahub.Repos.Marks.{
  is_watch, set_watcher_count, add_watcher, remove_watchers, watch_unless, watch_repository,
  unwatch_repository,
}
use pandahub.Repos.Marks.Counts.{marks_of-snoc, marks_of-delete_other, marks_of-delete_at}

pub set_watcher_count-KeepsColumns : (count : ℕ) → KeepsColumns (set_watcher_count count)
unfolding set_watcher_count
set_watcher_count-KeepsColumns count = record {
  id = λ r. refl;
  owner_user_id = λ r. refl;
  owner_organization_id = λ r. refl;
  name = λ r. refl;
  disk_path = λ r. refl;
}

set_watcher_count_keeps_source :
    (count : ℕ) (r : Repository) → (set_watcher_count count r).forked_from_id ≡ r.forked_from_id
unfolding set_watcher_count
set_watcher_count_keeps_source count r = refl

-- The rows after the user's mark on the repository was added, and after it was taken away.
abbrev pub with_watcher : (user_id : ℕ) → Repository → RepoStore → RepoStore
with_watcher user_id repo d =
    change_repository repo.id (set_watcher_count (suc repo.watcher_count))
      (add_watcher (record { repository_id = repo.id; user_id = user_id }) d)

abbrev pub without_watcher : (user_id : ℕ) → Repository → RepoStore → RepoStore
without_watcher user_id repo d =
    change_repository repo.id (set_watcher_count (repo.watcher_count - 1))
      (remove_watchers repo.id user_id d)

-- The user has marked the repository.
abbrev pub has_watcher : (user_id repo_id : ℕ) → RepoStore → Bool
has_watcher user_id repo_id d = any (is_watch repo_id user_id) d.watchers

module _ (user_id : ℕ) (repo : Repository) (d : RepoStore) (v : IsValid d)
    (known : has_user d.users user_id ≡ true) (loaded : In repo d.repositories) where
  added-IsValid :
      has_watcher user_id repo.id d ≡ false
      → IsValid (add_watcher (record { repository_id = repo.id; user_id = user_id }) d)
  unfolding satisfies_constraints watchers_valid add_watcher same_watcher is_watch
  added-IsValid free = record {
    constraints = ground (
      arith,
      v.constraints,
      known,
      has_repository-In repo d.repositories loaded,
      unique-snoc same_watcher d.watchers (record { repository_id = repo.id; user_id = user_id }),
      all-snoc (λ x. has_repository d.repositories x.repository_id) d.watchers
          (record { repository_id = repo.id; user_id = user_id }),
      all-snoc (λ x. has_user d.users x.user_id) d.watchers
          (record { repository_id = repo.id; user_id = user_id }),
      free,
    );
    names = v.names;
  }

  removed-IsValid : IsValid (remove_watchers repo.id user_id d)
  unfolding satisfies_constraints watchers_valid remove_watchers
  removed-IsValid = record {
    constraints = ground (
      arith,
      v.constraints,
      unique-delete_where same_watcher (is_watch repo.id user_id) d.watchers,
      all-delete_where (λ x. has_repository d.repositories x.repository_id)
          (is_watch repo.id user_id) d.watchers,
      all-delete_where (λ x. has_user d.users x.user_id) (is_watch repo.id user_id) d.watchers,
    );
    names = v.names;
  }

  pub with_watcher-IsValid :
      has_watcher user_id repo.id d ≡ false → IsValid (with_watcher user_id repo d)
  with_watcher-IsValid free =
      change-IsValid _ (set_watcher_count-KeepsColumns _) (set_watcher_count_keeps_source _) repo.id
        _ (added-IsValid free)

  pub without_watcher-IsValid : IsValid (without_watcher user_id repo d)
  without_watcher-IsValid =
      change-IsValid _ (set_watcher_count-KeepsColumns _) (set_watcher_count_keeps_source _) repo.id
        _ removed-IsValid

  keys : unique same_watcher d.watchers ≡ true
  unfolding satisfies_constraints watchers_valid
  keys = ground (arith, v.constraints)

  ids : unique same_id d.repositories ≡ true
  unfolding satisfies_constraints repositories_valid
  ids = ground (arith, v.constraints)

  -- On valid rows, `watch_repository` on behalf of a known user for a stored repository succeeds: it adds the
  -- user's row and counts one more, or changes nothing if the user has one.
  pub watch_repository_lem :
      run (watch_repository user_id repo) d
      ≡ (ok tt, if has_watcher user_id repo.id d then d else with_watcher user_id repo d)
  unfolding watch_repository watch_unless scalar_one_or_none
  watch_repository_lem = elim (Bool-cases (has_watcher user_id repo.id d)) [
    | inl e ↦
        let (x, i, t) = any-In (is_watch repo.id user_id) d.watchers e in
        rw e (
          rw
            (select_single same_watcher (is_watch repo.id user_id) d.watchers x
              (unfold same_watcher is_watch in λ a b h k. ground arith) keys t i)
            refl)
    | inr e ↦ rw e (
        rw (select_none (is_watch repo.id user_id) d.watchers e)
          (rw (with_watcher-IsValid e).constraints refl))
  ]

  -- On valid rows, `unwatch_repository` for a stored repository succeeds: the user's row is gone, if there was one,
  -- and the counter is one less, even if there was none.
  pub unwatch_repository_lem :
      run (unwatch_repository user_id repo) d ≡ (ok tt, without_watcher user_id repo d)
  unfolding unwatch_repository
  unwatch_repository_lem = rw without_watcher-IsValid.constraints refl

  -- The counters, if the repository that the request loaded has its rows counted.
  same_row : All (λ r. (r.id == repo.id) ≡ true → r ≡ repo) d.repositories
  same_row =
      unfold same_id in unique_row same_id d.repositories repo (λ a b. ground arith) ids loaded

  other_row : (r : Repository) → (r.id == repo.id) ≡ false → (repo.id == r.id) ≡ false
  other_row r h = ground arith

  pub with_watcher-count :
      All (HasWatcherCount d) d.repositories
      → has_watcher user_id repo.id d ≡ false
      → All
          (HasWatcherCount (with_watcher user_id repo d))
          (with_watcher user_id repo d).repositories
  unfolding change_repository add_watcher set_watcher_count
  with_watcher-count counted free =
      All-updated (HasWatcherCount d) (HasWatcherCount (with_watcher user_id repo d))
        (λ r. r.id == repo.id) (set_watcher_count (suc repo.watcher_count)) d.repositories
        (λ r t h. ground (
          arith,
          All-In (HasWatcherCount d) d.repositories counted loaded,
          marks_of-snoc (λ (x : RepositoryWatcher). x.repository_id)
              (λ (x : RepositoryWatcher). x.user_id) r.id d.watchers
              (record { repository_id = repo.id; user_id = user_id }),
        ))
        (λ r t h. ground (
          arith,
          h,
          marks_of-snoc (λ (x : RepositoryWatcher). x.repository_id)
              (λ (x : RepositoryWatcher). x.user_id) r.id d.watchers
              (record { repository_id = repo.id; user_id = user_id }),
        ))
        counted

  -- If the counters are right, then after `unwatch_repository` each still is, save that of the
  -- repository if the user had no row there: as many rows are left as the counter said before.
  pub without_watcher-count :
      All (HasWatcherCount d) d.repositories
      → All
          (λ r.
            length (select (λ x. x.repository_id == r.id) (without_watcher user_id repo d).watchers)
            ≡ (if (r.id == repo.id) && not (has_watcher user_id repo.id d)
                then repo.watcher_count
                else r.watcher_count))
          (without_watcher user_id repo d).repositories
  unfolding change_repository remove_watchers set_watcher_count is_watch same_watcher
  without_watcher-count counted =
      All-updated (HasWatcherCount d)
        (λ r.
          length (select (λ x. x.repository_id == r.id) (without_watcher user_id repo d).watchers)
          ≡ (if (r.id == repo.id) && not (has_watcher user_id repo.id d)
              then repo.watcher_count
              else r.watcher_count))
        (λ r. r.id == repo.id) (set_watcher_count (repo.watcher_count - 1)) d.repositories
        (λ r t h. ground (
          arith,
          t,
          All-In (HasWatcherCount d) d.repositories counted loaded,
          marks_of-delete_at (λ (x : RepositoryWatcher). x.repository_id)
              (λ (x : RepositoryWatcher). x.user_id) r.id repo.id user_id d.watchers t keys,
        ))
        (λ r t h. ground (
          arith,
          t,
          h,
          marks_of-delete_other (λ (x : RepositoryWatcher). x.repository_id)
              (λ (x : RepositoryWatcher). x.user_id) r.id repo.id user_id d.watchers,
        ))
        counted
