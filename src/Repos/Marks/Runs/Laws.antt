-- ===== src/Repos/Marks/Runs/Laws.antt =====
-- repo_service.py: every run of star and unstar requests refines the set of stars.
use mathlib.Core.Path.{subst}
use pandahub.Prelude.{
  ℕ, ◌≡◌, refl, sym, ◌∙◌, ap, inl, inr, Bool, true, not, ◌&&◌, ◌||◌, List, [], ◌∷◌, arith, any, All,
  ◌==◌, if◌then◌else◌, Bool-cases,
}
use pandahub.Exceptions.{ok}
use pandahub.Session.{run}
use pandahub.Table.{select, scalar_one_or_none, unique, delete_where}
use pandahub.Table.Laws.{All-implies, In, any-In, select_none}
use pandahub.Table.Keys.{any-snoc, select_single}
use pandahub.Repos.Store.{
  Repository, RepositoryStar, RepoStore, same_id, has_repository, has_user, repositories_valid,
  stars_valid, same_star, satisfies_constraints, change_repository,
}
use pandahub.Repos.Valid.{IsValid, has_repository-update}
use pandahub.Repos.Marks.{
  is_star, add_star, remove_stars, star_repository, unstar_repository, is_starred,
}
use pandahub.Repos.Marks.Stars.{
  has_star, with_star, without_star, with_star-IsValid, without_star-IsValid, star_repository_lem,
  unstar_repository_lem, set_star_count-KeepsColumns,
}
use pandahub.Repos.Marks.Runs.{
  StarRequest, star, unstar, loaded_or_404, load, serve, serve_all, Stars, apply, apply_all,
  IsKnown,
}

any-delete_where_iff :
    {A : Type 0} (q p : A → Bool) (xs : List A)
    → any q (delete_where p xs) ≡ any (λ x. q x && not (p x)) xs
unfolding delete_where
any-delete_where_iff q p [] = refl
any-delete_where_iff q p (x ∷ xs) = ground (arith, any-delete_where_iff q p xs)

has_star-with_star :
    (user_id : ℕ) (repo : Repository) (d : RepoStore) (u r : ℕ)
    → has_star u r (with_star user_id repo d) ≡ ((u == user_id && r == repo.id) || has_star u r d)
unfolding change_repository add_star is_star
has_star-with_star user_id repo d u r =
    any-snoc (is_star r u) d.stars (record { repository_id = repo.id; user_id = user_id })
    ∙ ground arith

has_star-without_star :
    (user_id : ℕ) (repo : Repository) (d : RepoStore) (u r : ℕ)
    → has_star u r (without_star user_id repo d)
      ≡ (not (u == user_id && r == repo.id) && has_star u r d)
unfolding change_repository remove_stars is_star
has_star-without_star user_id repo d u r =
    any-delete_where_iff (is_star r u) (is_star repo.id user_id) d.stars ∙ others d.stars
  where
    others :
        (xs : List RepositoryStar)
        → any (λ x. is_star r u x && not (is_star repo.id user_id x)) xs
          ≡ (not (u == user_id && r == repo.id) && any (is_star r u) xs)
    others [] = ground arith
    others (x ∷ xs) = ground (arith, others xs)

module _ (d : RepoStore) (v : IsValid d) where
  ids : unique same_id d.repositories ≡ true
  unfolding satisfies_constraints repositories_valid
  ids = ground (arith, v.constraints)

  star_keys : unique same_star d.stars ≡ true
  unfolding satisfies_constraints stars_valid
  star_keys = ground (arith, v.constraints)

  -- The query by id finds the repository.
  loaded :
      (id : ℕ)
      → has_repository d.repositories id ≡ true
      → (repo : Repository) × In repo d.repositories
        × (repo.id ≡ id)
        × (select (λ r. r.id == id) d.repositories ≡ repo ∷ [])
  unfolding has_repository
  loaded id h =
      let (repo, i, t) = any-In (λ r. r.id == id) d.repositories h in
      (
        repo,
        i,
        ground (arith, t),
        unfold same_id in
            select_single same_id (λ r. r.id == id) d.repositories repo (λ a b x y. ground arith)
              ids t i,
      )

  -- What a served request leaves: valid rows, the same users and repositories, and the stars that
  -- the abstract request leaves.
  abbrev IsServed : StarRequest → RepoStore → Type 0
  IsServed q after =
      IsValid after
      × (after.users ≡ d.users)
      × ((id : ℕ) → has_repository after.repositories id ≡ has_repository d.repositories id)
      × ((u r : ℕ) → has_star u r after ≡ apply q (λ a b. has_star a b d) u r)

  same_star_of :
      (user_id id u r : ℕ)
      → (u == user_id && r == id) ≡ true
      → has_star u r d ≡ has_star user_id id d
  same_star_of user_id id u r e =
      let same_user : u ≡ user_id = ground (arith, e) in
      let same_repository : r ≡ id = ground (arith, e) in cc (same_user, same_repository)

  starred_again :
      (user_id id u r : ℕ)
      → has_star user_id id d ≡ true
      → has_star u r d ≡ ((u == user_id && r == id) || has_star u r d)
  starred_again user_id id u r h = elim (Bool-cases (u == user_id && r == id)) [
    | inr e ↦ rw e refl
    | inl e ↦ rw e (same_star_of user_id id u r e ∙ h)
  ]

  serve-star :
      (user_id repo_id : ℕ) (repo : Repository)
      → select (λ r. r.id == repo_id) d.repositories ≡ repo ∷ []
      → run (serve (star user_id repo_id)) d ≡ run (star_repository user_id repo) d
  unfolding serve load loaded_or_404 scalar_one_or_none
  serve-star user_id repo_id repo found = rw found refl

  serve-unstar :
      (user_id repo_id : ℕ) (repo : Repository)
      → select (λ r. r.id == repo_id) d.repositories ≡ repo ∷ []
      → run (serve (unstar user_id repo_id)) d ≡ run (unstar_repository user_id repo) d
  unfolding serve load loaded_or_404 scalar_one_or_none
  serve-unstar user_id repo_id repo found = rw found refl

  starred-IsServed :
      (user_id : ℕ) (repo : Repository)
      → has_user d.users user_id ≡ true
      → In repo d.repositories
      → IsServed
          (star user_id repo.id)
          (if has_star user_id repo.id d then d else with_star user_id repo d)
  unfolding change_repository add_star
  starred-IsServed user_id repo known i = elim (Bool-cases (has_star user_id repo.id d)) [
    | inl e ↦ rw e (v, refl, λ id. refl, λ u r. starred_again user_id repo.id u r e)
    | inr e ↦ rw e (
      with_star-IsValid user_id repo d v known i e,
      refl,
      λ id. has_repository-update _ (set_star_count-KeepsColumns _) _ d.repositories id,
      λ u r. has_star-with_star user_id repo d u r,
    )
  ]

  unstarred-IsServed :
      (user_id : ℕ) (repo : Repository)
      → has_user d.users user_id ≡ true
      → In repo d.repositories
      → IsServed (unstar user_id repo.id) (without_star user_id repo d)
  unfolding change_repository remove_stars
  unstarred-IsServed user_id repo known i = (
    without_star-IsValid user_id repo d v known i,
    refl,
    λ id. has_repository-update _ (set_star_count-KeepsColumns _) _ d.repositories id,
    λ u r. has_star-without_star user_id repo d u r,
  )

  serve_lem : (q : StarRequest) → IsKnown d q → IsServed q (run (serve q) d).1
  serve_lem (star user_id repo_id) (known, stored) =
      let (repo, i, same, found) = loaded repo_id stored in
      subst (λ outcome. IsServed (star user_id repo_id) outcome.1)
        (sym (serve-star user_id repo_id repo found ∙ star_repository_lem user_id repo d v known i))
        (rw (← same) (starred-IsServed user_id repo known i))
  serve_lem (unstar user_id repo_id) (known, stored) =
      let (repo, i, same, found) = loaded repo_id stored in
      subst (λ outcome. IsServed (unstar user_id repo_id) outcome.1)
        (sym (
          serve-unstar user_id repo_id repo found ∙ unstar_repository_lem user_id repo d v known i))
        (rw (← same) (unstarred-IsServed user_id repo known i))

  -- What `is_starred` answers.
  is_starred_lem :
      (user_id repo_id : ℕ)
      → run (is_starred user_id repo_id) d ≡ (ok (has_star user_id repo_id d), d)
  unfolding is_starred scalar_one_or_none
  is_starred_lem user_id repo_id = elim (Bool-cases (has_star user_id repo_id d)) [
    | inl e ↦
        let (x, i, t) = any-In (is_star repo_id user_id) d.stars e in
        rw e (
          rw
            (select_single same_star (is_star repo_id user_id) d.stars x
              (unfold same_star is_star in λ a b h k. ground arith) star_keys t i)
            refl)
    | inr e ↦ rw e (rw (select_none (is_star repo_id user_id) d.stars e) refl)
  ]

IsKnown-served :
    (d after : RepoStore) (q : StarRequest)
    → after.users ≡ d.users
    → ((id : ℕ) → has_repository after.repositories id ≡ has_repository d.repositories id)
    → IsKnown d q
    → IsKnown after q
IsKnown-served d after (star u r) users repositories (h, k) =
    (ap (λ us. has_user us u) users ∙ h, repositories r ∙ k)
IsKnown-served d after (unstar u r) users repositories (h, k) =
    (ap (λ us. has_user us u) users ∙ h, repositories r ∙ k)

apply-cong :
    (q : StarRequest) (s t : Stars)
    → ((u r : ℕ) → s u r ≡ t u r)
    → (u r : ℕ) → apply q s u r ≡ apply q t u r
apply-cong (star a b) s t h u r = rw h refl
apply-cong (unstar a b) s t h u r = rw h refl

apply_all-cong :
    (qs : List StarRequest) (s t : Stars)
    → ((u r : ℕ) → s u r ≡ t u r)
    → (u r : ℕ) → apply_all qs s u r ≡ apply_all qs t u r
apply_all-cong [] s t h u r = h u r
apply_all-cong (q ∷ qs) s t h u r =
    apply_all-cong qs (apply q s) (apply q t) (apply-cong q s t h) u r

serve_all_lem :
    (qs : List StarRequest) (d : RepoStore)
    → IsValid d
    → All (IsKnown d) qs
    → IsValid (serve_all qs d)
      × ((u r : ℕ) → has_star u r (serve_all qs d) ≡ apply_all qs (λ a b. has_star a b d) u r)
unfolding serve_all
serve_all_lem [] d v known = (v, λ u r. refl)
serve_all_lem (q ∷ qs) d v known =
    let (valid, users, repositories, stars) = serve_lem d v q known.0 in
    let after = (run (serve q) d).1 in
    let (last, run_stars) = serve_all_lem qs after valid (
      All-implies (IsKnown d) (IsKnown after) qs (λ p. IsKnown-served d after p users repositories)
        known.1) in
    (last, λ u r. run_stars u r ∙ apply_all-cong qs (λ a b. has_star a b after) _ stars u r)

-- On valid rows, after any run of star and unstar requests of known users for stored repositories,
-- `is_starred` answers what the set of stars says after the same run: a star puts the user's pair
-- into it and an unstar takes it out, however often each is asked for.
pub is_starred-serve_all :
    (qs : List StarRequest) (d : RepoStore) (user_id repo_id : ℕ)
    → IsValid d
    → All (IsKnown d) qs
    → run (is_starred user_id repo_id) (serve_all qs d)
      ≡ (ok (apply_all qs (λ u r. has_star u r d) user_id repo_id), serve_all qs d)
is_starred-serve_all qs d user_id repo_id v known =
    let (valid, stars) = serve_all_lem qs d v known in
    is_starred_lem (serve_all qs d) valid user_id repo_id
    ∙ ap (λ answer. (ok answer, serve_all qs d)) (stars user_id repo_id)
