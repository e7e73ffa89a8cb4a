-- ===== src/Repos/Marks/Runs.antt =====
-- repo_service.py: a run of star and unstar requests against the set of stars that it stands for.
pub mod Laws
use mathlib.Core.Path.{subst}
use pandahub.Prelude.{
  ℕ, ◌≡◌, refl, sym, ◌∙◌, ap, inl, inr, Bool, true, false, not, ◌&&◌, ◌||◌, List, [], ◌∷◌, arith,
  any, All, is_some, map, ◌==◌, ==_refl, if◌then◌else◌, Bool-cases, Option, some, none,
}
use pandahub.Exceptions.{Error.not_found, ok, err}
use pandahub.Session.{Exec, pure, raise, lift, query, run, ◌>>=◌}
use pandahub.Table.{select, scalar_one_or_none, unique, delete_where}
use pandahub.Table.Laws.{All-implies, In, any-In, select_none}
use pandahub.Table.Keys.{any-snoc, select_single}
use pandahub.Repos.Store.{
  Repository, RepositoryStar, RepoStore, same_id, has_repository, has_user, repositories_valid,
  stars_valid, same_star, satisfies_constraints, change_repository,
}
use pandahub.Repos.Valid.{IsValid, has_repository-update}
use pandahub.Repos.Marks.{
  is_star, add_star, remove_stars, set_star_count, star_repository, unstar_repository, is_starred,
}
use pandahub.Repos.Marks.Stars.{
  has_star, with_star, without_star, with_star-IsValid, without_star-IsValid, star_repository_lem,
  unstar_repository_lem, set_star_count-KeepsColumns,
}

-- A request that reached the service, with the id of the repository that was loaded for it.
pub data StarRequest : Type 0 where
  star unstar : (user_id repo_id : ℕ) → StarRequest

unfoldable pub loaded_or_404 : Option Repository → Exec RepoStore Repository
loaded_or_404 none = raise not_found
loaded_or_404 (some repo) = pure repo

unfoldable pub load : (repo_id : ℕ) → Exec RepoStore Repository
load repo_id = do
  rows ← query (λ d. select (λ r. r.id == repo_id) d.repositories)
  found ← lift (scalar_one_or_none rows)
  loaded_or_404 found

unfoldable pub serve : StarRequest → Exec RepoStore (Unit {0})
serve (star user_id repo_id) = do repo ← load repo_id; star_repository user_id repo
serve (unstar user_id repo_id) = do repo ← load repo_id; unstar_repository user_id repo

unfoldable pub serve_all : List StarRequest → RepoStore → RepoStore
serve_all [] d = d
serve_all (r ∷ rs) d = serve_all rs (run (serve r) d).1

-- The abstract view: who has starred what.
abbrev pub Stars : Type 0
Stars = (user_id repo_id : ℕ) → Bool

abbrev pub apply : StarRequest → Stars → Stars
apply (star user_id repo_id) stars u r = (u == user_id && r == repo_id) || stars u r
apply (unstar user_id repo_id) stars u r = not (u == user_id && r == repo_id) && stars u r

abbrev pub apply_all : List StarRequest → Stars → Stars
apply_all [] stars = stars
apply_all (q ∷ qs) stars = apply_all qs (apply q stars)

-- The request names a user and a repository that the database knows.
abbrev pub IsKnown : RepoStore → StarRequest → Type 0
IsKnown d (star user_id repo_id) =
    (has_user d.users user_id ≡ true) × (has_repository d.repositories repo_id ≡ true)
IsKnown d (unstar user_id repo_id) =
    (has_user d.users user_id ≡ true) × (has_repository d.repositories repo_id ≡ true)
