-- ===== src/Repos/Collaborators/Laws.antt =====
-- repo_service.py: a grant that was added is the one that counts, and one that was removed is gone.
use mathlib.Core.Path.{subst}
use pandahub.Prelude.{
  ℕ, ◌≤◌, ◌≡◌, refl, sym, inl, inr, some, Bool, true, false, List, [], ◌∷◌, ◌++◌, arith, any,
  if◌then◌else◌, Bool-cases,
}
use pandahub.Exceptions.{ok}
use pandahub.Session.{run}
use pandahub.Table.{scalar_one_or_none, unique, update_where, delete_where}
use pandahub.Table.Laws.{In, any-In, select_none}
use pandahub.Table.Keys.{
  unique-snoc, unique-update_where, all-snoc, all-update_where, select_single, In-snoc,
  In-update_where,
}
use pandahub.Table.Deletes.{
  unique-delete_where, all-delete_where, any-delete_where_self, In-delete_where,
}
use pandahub.Enums.{PermissionLevel}
use pandahub.Permissions.{RepositoryCollaborator, collaborates, level_rank, assert_permission}
use pandahub.Permissions.Access.{same_collaborator, same_member, IsGranted-assert_permission}
use pandahub.Permissions.Granted.{by_collaboration}
use pandahub.Repos.Store.{
  for_resolver, Repository, RepoStore, has_repository, has_user, collaborators_valid,
  satisfies_constraints,
}
use pandahub.Repos.Valid.{IsValid, has_repository-In}
use pandahub.Repos.Collaborators.{
  change_collaborators, new_grant, set_permission, grant, add_collaborator, remove_collaborator,
}

module _ (repo : Repository) (user_id : ℕ) (d : RepoStore) (v : IsValid d) where
  keys : unique same_collaborator d.access.collaborators ≡ true
  unfolding satisfies_constraints collaborators_valid
  keys = ground (arith, v.constraints)

  -- The user's grants in the repository before the call.
  abbrev has_grant : Bool
  has_grant = any (collaborates repo.id user_id) d.access.collaborators

  -- The grants after the call.
  abbrev pub granted : PermissionLevel → List RepositoryCollaborator
  granted permission =
      if has_grant
      then update_where (collaborates repo.id user_id) (set_permission permission)
          d.access.collaborators
      else d.access.collaborators ++ new_grant repo user_id permission ∷ []

  removed-IsValid : IsValid (change_collaborators (delete_where (collaborates repo.id user_id)) d)
  unfolding satisfies_constraints collaborators_valid
  removed-IsValid = record {
    constraints = ground (
      arith,
      v.constraints,
      unique-delete_where same_collaborator (collaborates repo.id user_id) d.access.collaborators,
      all-delete_where (λ c. has_repository d.repositories c.repository_id)
          (collaborates repo.id user_id) d.access.collaborators,
      all-delete_where (λ c. has_user d.users c.user_id) (collaborates repo.id user_id)
          d.access.collaborators,
    );
    names = v.names;
  }

  updated-IsValid :
      (permission : PermissionLevel)
      → IsValid (
          change_collaborators
            (update_where (collaborates repo.id user_id) (set_permission permission))
            d)
  unfolding satisfies_constraints collaborators_valid set_permission
  updated-IsValid permission = record {
    constraints = ground (
      arith,
      v.constraints,
      unique-update_where same_collaborator (collaborates repo.id user_id)
          (set_permission permission) d.access.collaborators (λ x y. refl) (λ x y. refl),
      all-update_where (λ c. has_repository d.repositories c.repository_id)
          (collaborates repo.id user_id) (set_permission permission) d.access.collaborators
          (λ x. refl),
      all-update_where (λ c. has_user d.users c.user_id) (collaborates repo.id user_id)
          (set_permission permission) d.access.collaborators (λ x. refl),
    );
    names = v.names;
  }

  added-IsValid :
      (permission : PermissionLevel)
      → has_user d.users user_id ≡ true
      → In repo d.repositories
      → has_grant ≡ false
      → IsValid (change_collaborators (λ rows. rows ++ new_grant repo user_id permission ∷ []) d)
  unfolding satisfies_constraints collaborators_valid new_grant collaborates
  added-IsValid permission known i free = record {
    constraints = ground (
      arith,
      v.constraints,
      known,
      free,
      has_repository-In repo d.repositories i,
      unique-snoc same_collaborator d.access.collaborators (new_grant repo user_id permission),
      all-snoc (λ c. has_repository d.repositories c.repository_id) d.access.collaborators
          (new_grant repo user_id permission),
      all-snoc (λ c. has_user d.users c.user_id) d.access.collaborators
          (new_grant repo user_id permission),
    );
    names = v.names;
  }

  -- The row that the update leaves is the grant that was asked for.
  updated_row :
      (permission : PermissionLevel) (c : RepositoryCollaborator)
      → collaborates repo.id user_id c ≡ true
      → set_permission permission c ≡ new_grant repo user_id permission
  unfolding collaborates set_permission new_grant
  updated_row permission c t =
      let same_repository : c.repository_id ≡ repo.id = ground (arith, t) in
      let same_user : c.user_id ≡ user_id = ground (arith, t) in cc (same_repository, same_user)

  module _ (permission : PermissionLevel) (known : has_user d.users user_id ≡ true)
      (loaded : In repo d.repositories) where
    -- On valid rows, `add_collaborator` for a known user and a stored repository returns the grant
    -- that was asked for; the user's row has its permission, or is added if there was none; and the
    -- rows stay valid.
    pub add_collaborator_lem :
        (run (add_collaborator repo user_id permission) d ≡ (
          ok (new_grant repo user_id permission),
          change_collaborators (λ rows. granted permission) d,
        ))
        × IsValid (change_collaborators (λ rows. granted permission) d)
    unfolding add_collaborator grant scalar_one_or_none
    add_collaborator_lem = elim (Bool-cases has_grant) [
      | inl e ↦
          let (c, i, t) = any-In (collaborates repo.id user_id) d.access.collaborators e in
          (
            rw
                (
                  e,
                  select_single same_collaborator (collaborates repo.id user_id)
                      d.access.collaborators c (λ a b h k. unfold collaborates in ground arith) keys
                      t i,
                  updated_row permission c t,
                  (updated-IsValid permission).constraints,
                )
                refl,
            rw e (updated-IsValid permission),
          )
      | inr e ↦ (
        rw
            (
              e,
              select_none (collaborates repo.id user_id) d.access.collaborators e,
              (added-IsValid permission known loaded e).constraints,
            )
            refl,
        rw e (added-IsValid permission known loaded e),
      )
    ]

    kept_keys :
        IsValid (change_collaborators (λ rows. granted permission) d)
        → unique same_collaborator (granted permission) ≡ true
    unfolding satisfies_constraints collaborators_valid
    kept_keys valid = ground (arith, valid.constraints)

    stands : In (new_grant repo user_id permission) (granted permission)
    stands = elim (Bool-cases has_grant) [
      | inl e ↦
          let (c, i, t) = any-In (collaborates repo.id user_id) d.access.collaborators e in
          rw e (
            subst
              (λ row. In row (
                update_where (collaborates repo.id user_id) (set_permission permission)
                  d.access.collaborators))
              (updated_row permission c t)
              (In-update_where (collaborates repo.id user_id) (set_permission permission)
                d.access.collaborators c t i))
      | inr e ↦ rw e (In-snoc d.access.collaborators (new_grant repo user_id permission))
    ]

    -- On valid rows and memberships, after `add_collaborator` the user passes every check whose
    -- minimum the granted permission reaches.
    pub assert_permission-add_collaborator :
        unique same_member d.access.organization_members ≡ true
        → (minimum : PermissionLevel) → level_rank minimum ≤ level_rank permission
        → (l : PermissionLevel) × (assert_permission
              (run (add_collaborator repo user_id permission) d).1.access
              (some user_id)
              (for_resolver repo)
              minimum
            ≡ ok l)
    assert_permission-add_collaborator members minimum h =
        let (answer, valid) = add_collaborator_lem in
        subst
          (λ outcome.
            (l : PermissionLevel) × (assert_permission outcome.1.access (some user_id)
                (for_resolver repo) minimum
              ≡ ok l))
          (sym answer)
          (IsGranted-assert_permission _ (for_resolver repo)
            (record { members = members; collaborators = kept_keys valid }) (some user_id) minimum
            permission
            (by_collaboration user_id (new_grant repo user_id permission) refl stands
              (unfold new_grant for_resolver in refl) (unfold new_grant in refl)
              (unfold new_grant in refl))
            h)

  -- On valid rows, `remove_collaborator` succeeds, listed or not: the user has no row for the
  -- repository any more, every other row stands as before, and the rows stay valid.
  pub remove_collaborator_lem :
      (run (remove_collaborator repo user_id) d
        ≡ (ok tt, change_collaborators (delete_where (collaborates repo.id user_id)) d))
      × IsValid (change_collaborators (delete_where (collaborates repo.id user_id)) d)
      × (any
            (collaborates repo.id user_id)
            (delete_where (collaborates repo.id user_id) d.access.collaborators)
          ≡ false)
      × ((c : RepositoryCollaborator)
          → In c d.access.collaborators
          → collaborates repo.id user_id c ≡ false
          → In c (delete_where (collaborates repo.id user_id) d.access.collaborators))
  unfolding remove_collaborator
  remove_collaborator_lem = (
    rw removed-IsValid.constraints refl,
    removed-IsValid,
    any-delete_where_self (collaborates repo.id user_id) d.access.collaborators,
    λ c i n. In-delete_where (collaborates repo.id user_id) d.access.collaborators n i,
  )
