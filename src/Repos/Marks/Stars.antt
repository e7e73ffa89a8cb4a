-- ===== src/Repos/Marks/Stars.antt =====
-- repo_service.py: star_repository and unstar_repository keep the rows valid; what becomes of the counter.
use pandahub.Prelude.{
  ℕ, suc, ◌-◌, ◌≡◌, refl, ap, inl, inr, Bool, true, false, not, ◌&&◌, arith, any, All, length, ◌==◌,
  if◌then◌else◌, Bool-cases,
}
use pandahub.Exceptions.{ok}
use pandahub.Session.{run}
use pandahub.Table.{select, scalar_one_or_none, unique}
use pandahub.Table.Laws.{In, any-In, select_none, All-In}
use pandahub.Table.Keys.{unique-snoc, all-snoc, select_single, unique_row, All-updated}
use pandahub.Table.Deletes.{unique-delete_where, all-delete_where}
use pandahub.Repos.Store.{
  Repository, RepositoryStar, RepoStore, same_id, same_star, has_repository, has_user, stars_valid,
  repositories_valid, satisfies_constraints, change_repository,
}
use pandahub.Repos.Valid.{HasStarCount, IsValid, KeepsColumns, change-IsValid, has_repository-In}
use pandahub.Repos.Marks.{
  is_star, set_star_count, add_star, remove_stars, star_unless, star_repository, unstar_repository,
}
use pandahub.Repos.Marks.Counts.{marks_of-snoc, marks_of-delete_other, marks_of-delete_at}

pub set_star_count-KeepsColumns : (count : ℕ) → KeepsColumns (set_star_count count)
unfolding set_star_count
set_star_count-KeepsColumns count = record {
  id = λ r. refl;
  owner_user_id = λ r. refl;
  owner_organization_id = λ r. refl;
  name = λ r. refl;
  disk_path = λ r. refl;
}

set_star_count_keeps_source :
    (count : ℕ) (r : Repository) → (set_star_count count r).forked_from_id ≡ r.forked_from_id
unfolding set_star_count
set_star_count_keeps_source count r = refl

-- The rows after the user's mark on the repository was added, and after it was taken away.
abbrev pub with_star : (user_id : ℕ) → Repository → RepoStore → RepoStore
with_star user_id repo d =
    change_repository repo.id (set_star_count (suc repo.star_count))
      (add_star (record { repository_id = repo.id; user_id = user_id }) d)

abbrev pub without_star : (user_id : ℕ) → Repository → RepoStore → RepoStore
without_star user_id repo d =
    change_repository repo.id (set_star_count (repo.star_count - 1))
      (remove_stars repo.id user_id d)

-- The user has marked the repository.
abbrev pub has_star : (user_id repo_id : ℕ) → RepoStore → Bool
has_star user_id repo_id d = any (is_star repo_id user_id) d.stars

module _ (user_id : ℕ) (repo : Repository) (d : RepoStore) (v : IsValid d)
    (known : has_user d.users user_id ≡ true) (loaded : In repo d.repositories) where
  added-IsValid :
      has_star user_id repo.id d ≡ false
      → IsValid (add_star (record { repository_id = repo.id; user_id = user_id }) d)
  unfolding satisfies_constraints stars_valid add_star same_star is_star
  added-IsValid free = record {
    constraints = ground (
      arith,
      v.constraints,
      known,
      has_repository-In repo d.repositories loaded,
      unique-snoc same_star d.stars (record { repository_id = repo.id; user_id = user_id }),
      all-snoc (λ x. has_repository d.repositories x.repository_id) d.stars
          (record { repository_id = repo.id; user_id = user_id }),
      all-snoc (λ x. has_user d.users x.user_id) d.stars
          (record { repository_id = repo.id; user_id = user_id }),
      free,
    );
    names = v.names;
  }

  removed-IsValid : IsValid (remove_stars repo.id user_id d)
  unfolding satisfies_constraints stars_valid remove_stars
  removed-IsValid = record {
    constraints = ground (
      arith,
      v.constraints,
      unique-delete_where same_star (is_star repo.id user_id) d.stars,
      all-delete_where (λ x. has_repository d.repositories x.repository_id)
          (is_star repo.id user_id) d.stars,
      all-delete_where (λ x. has_user d.users x.user_id) (is_star repo.id user_id) d.stars,
    );
    names = v.names;
  }

  pub with_star-IsValid : has_star user_id repo.id d ≡ false → IsValid (with_star user_id repo d)
  with_star-IsValid free =
      change-IsValid _ (set_star_count-KeepsColumns _) (set_star_count_keeps_source _) repo.id _
        (added-IsValid free)

  pub without_star-IsValid : IsValid (without_star user_id repo d)
  without_star-IsValid =
      change-IsValid _ (set_star_count-KeepsColumns _) (set_star_count_keeps_source _) repo.id _
        removed-IsValid

  keys : unique same_star d.stars ≡ true
  unfolding satisfies_constraints stars_valid
  keys = ground (arith, v.constraints)

  ids : unique same_id d.repositories ≡ true
  unfolding satisfies_constraints repositories_valid
  ids = ground (arith, v.constraints)

  -- On valid rows, `star_repository` on behalf of a known user for a stored repository succeeds: it adds the
  -- user's row and counts one more, or changes nothing if the user has one.
  pub star_repository_lem :
      run (star_repository user_id repo) d
      ≡ (ok tt, if has_star user_id repo.id d then d else with_star user_id repo d)
  unfolding star_repository star_unless scalar_one_or_none
  star_repository_lem = elim (Bool-cases (has_star user_id repo.id d)) [
    | inl e ↦
        let (x, i, t) = any-In (is_star repo.id user_id) d.stars e in
        rw e (
          rw
            (select_single same_star (is_star repo.id user_id) d.stars x
              (unfold same_star is_star in λ a b h k. ground arith) keys t i)
            refl)
    | inr e ↦ rw e (
        rw (select_none (is_star repo.id user_id) d.stars e)
          (rw (with_star-IsValid e).constraints refl))
  ]

  -- On valid rows, `unstar_repository` for a stored repository succeeds: the user's row is gone, if there was one,
  -- and the counter is one less, even if there was none.
  pub unstar_repository_lem :
      run (unstar_repository user_id repo) d ≡ (ok tt, without_star user_id repo d)
  unfolding unstar_repository
  unstar_repository_lem = rw without_star-IsValid.constraints refl

  -- The counters, if the repository that the request loaded has its rows counted.
  same_row : All (λ r. (r.id == repo.id) ≡ true → r ≡ repo) d.repositories
  same_row =
      unfold same_id in unique_row same_id d.repositories repo (λ a b. ground arith) ids loaded

  other_row : (r : Repository) → (r.id == repo.id) ≡ false → (repo.id == r.id) ≡ false
  other_row r h = ground arith

  pub with_star-count :
      All (HasStarCount d) d.repositories
      → has_star user_id repo.id d ≡ false
      → All (HasStarCount (with_star user_id repo d)) (with_star user_id repo d).repositories
  unfolding change_repository add_star set_star_count
  with_star-count counted free =
      All-updated (HasStarCount d) (HasStarCount (with_star user_id repo d)) (λ r. r.id == repo.id)
        (set_star_count (suc repo.star_count)) d.repositories
        (λ r t h. ground (
          arith,
          All-In (HasStarCount d) d.repositories counted loaded,
          marks_of-snoc (λ (x : RepositoryStar). x.repository_id)
              (λ (x : RepositoryStar). x.user_id) r.id d.stars
              (record { repository_id = repo.id; user_id = user_id }),
        ))
        (λ r t h. ground (
          arith,
          h,
          marks_of-snoc (λ (x : RepositoryStar). x.repository_id)
              (λ (x : RepositoryStar). x.user_id) r.id d.stars
              (record { repository_id = repo.id; user_id = user_id }),
        ))
        counted

  -- The counters against the rows that are left, where they were right before.
  without_star-count :
      All (HasStarCount d) d.repositories
      → All
          (λ r. r.star_count ≡ (
            if (r.id == repo.id) && not (has_star user_id repo.id d)
            then length (select (λ x. x.repository_id == r.id) (without_star user_id repo d).stars)
              - 1
            else length
                (select (λ x. x.repository_id == r.id) (without_star user_id repo d).stars)))
          (without_star user_id repo d).repositories
  unfolding change_repository remove_stars set_star_count is_star same_star
  without_star-count counted =
      All-updated (HasStarCount d)
        (λ r. r.star_count ≡ (
          if (r.id == repo.id) && not (has_star user_id repo.id d)
          then length (select (λ x. x.repository_id == r.id) (without_star user_id repo d).stars)
            - 1
          else length (select (λ x. x.repository_id == r.id) (without_star user_id repo d).stars)))
        (λ r. r.id == repo.id) (set_star_count (repo.star_count - 1)) d.repositories
        (λ r t h. ground (
          arith,
          t,
          All-In (HasStarCount d) d.repositories counted loaded,
          marks_of-delete_at (λ (x : RepositoryStar). x.repository_id)
              (λ (x : RepositoryStar). x.user_id) r.id repo.id user_id d.stars t keys,
        ))
        (λ r t h. ground (
          arith,
          t,
          h,
          marks_of-delete_other (λ (x : RepositoryStar). x.repository_id)
              (λ (x : RepositoryStar). x.user_id) r.id repo.id user_id d.stars,
        ))
        counted

  -- On valid rows, if the counters are right, `unstar_repository` succeeds and stores for each
  -- repository the number of the rows it has then; but if the user had no row there, the counter of
  -- the repository is stored one less although all of its rows are left.
  pub unstar_repository-count :
      All (HasStarCount d) d.repositories
      → ((run (unstar_repository user_id repo) d).0 ≡ ok tt)
        × All
            (λ r. r.star_count ≡ (
              if (r.id == repo.id) && not (has_star user_id repo.id d)
              then length (
                  select
                    (λ x. x.repository_id == r.id)
                    (run (unstar_repository user_id repo) d).1.stars)
                - 1
              else length (
                  select
                    (λ x. x.repository_id == r.id)
                    (run (unstar_repository user_id repo) d).1.stars)))
            (run (unstar_repository user_id repo) d).1.repositories
  unstar_repository-count counted =
      (ap (λ r. r.0) unstar_repository_lem, rw unstar_repository_lem (without_star-count counted))
