-- ===== src/Permissions/Access.antt =====
-- resolver.py and dependencies.py: who passes `assert_permission` and `require_repo_permission`.
use pandahub.Prelude.{
  ℕ, ◌≤◌, ◌<◌, ◌≡◌, refl, ap, inl, inr, Option, none, some, Bool, true, false, arith, ◌&&◌, is_some,
  ◌==◌, Bool-cases, Option-cases,
}
use pandahub.Exceptions.{Error, ok, err, chain_inversion}
use pandahub.Table.{unique}
use pandahub.Table.Laws.{scalar_unique, scalar-map}
use pandahub.Enums.{PermissionLevel, read, admin, public}
use pandahub.Permissions.{
  Repository, OrganizationMember, RepositoryCollaborator, AccessTables, level_rank, meets_minimum,
  is_owner, administers, organization_role, collaborates, collaborator_level, fallback, highest,
  max_level, team_levels, visibility_level, resolve_permission, refusal, checked, assert_permission,
  require_repo_permission,
}
use pandahub.Permissions.Rank.{option_rank, level_rank_pos}
use pandahub.Permissions.Granted.{
  IsGranted, by_ownership, by_organization, by_collaboration, by_team, by_public, by_internal,
}
use pandahub.Permissions.Resolve.{resolve_permission-IsGranted}
use pandahub.Permissions.Greatest.{resolve_permission_greatest}

-- uq_org_member and uq_repo_collaborator
abbrev pub same_member : OrganizationMember → OrganizationMember → Bool
same_member a b = a.organization_id == b.organization_id && a.user_id == b.user_id

abbrev pub same_collaborator : RepositoryCollaborator → RepositoryCollaborator → Bool
same_collaborator a b = a.repository_id == b.repository_id && a.user_id == b.user_id

-- The unique constraints of the two tables that are read by `scalar_one_or_none`.
pub record HasUniqueKeys (db : AccessTables) : Type 0 where
  pub members : unique same_member db.organization_members ≡ true
  pub collaborators : unique same_collaborator db.collaborators ≡ true

module _ (db : AccessTables) (keys : HasUniqueKeys db) (repo : Repository) where
  role_total :
      (user organization : Option ℕ)
      → (r : Option _) × (organization_role db user organization ≡ ok r)
  unfolding organization_role administers
  role_total none organization = (none, refl)
  role_total (some u) none = (none, refl)
  role_total (some u) (some o) =
      let (r, e) =
        scalar_unique same_member (administers o u) (λ x y h k. ground arith)
          db.organization_members keys.members in
      scalar-map (λ (m : OrganizationMember). m.role) _ e

  collaborator_total :
      (user : Option ℕ) → (r : Option PermissionLevel) × (collaborator_level db user repo ≡ ok r)
  unfolding collaborator_level collaborates
  collaborator_total none = (none, refl)
  collaborator_total (some u) =
      let (r, e) =
        scalar_unique same_collaborator (collaborates repo.id u) (λ x y h k. ground arith)
          db.collaborators keys.collaborators in
      scalar-map (λ (c : RepositoryCollaborator). c.permission) _ e

  -- Under the unique constraints the resolver raises nothing.
  pub resolve_permission_total :
      (user : Option ℕ) → (r : Option PermissionLevel) × (resolve_permission db user repo ≡ ok r)
  unfolding resolve_permission
  resolve_permission_total user = elim (Bool-cases (is_owner user repo)) [
    | inl e ↦ (some admin, rw e)
    | inr e ↦
        let (role, q) = role_total user repo.owner_organization_id in
        let (collab, c) = collaborator_total user in
        elim (Bool-cases (is_some role)) [
          | inl t ↦ (some admin, rw (e, q, t))
          | inr t ↦ (
            fallback (highest (max_level none collab) (team_levels db user repo))
                (visibility_level user repo.visibility),
            rw (e, q, t, c),
          )
        ]
  ]

module _ (db : AccessTables) (repo : Repository) where
  -- A caller who passes the check holds the returned level by one of the rules, and it reaches
  -- the minimum.
  pub assert_permission-IsGranted :
      (user : Option ℕ) (minimum l : PermissionLevel)
      → assert_permission db user repo minimum ≡ ok l
      → IsGranted db user repo l × (level_rank minimum ≤ level_rank l)
  unfolding assert_permission checked meets_minimum
  assert_permission-IsGranted user minimum l h =
      let (r, e, c) = chain_inversion (resolve_permission db user repo) (checked user minimum) h in
      elim (Option-cases r) [
        | inl n ↦ ground arith
        | inr (k, s) ↦ (resolve_permission-IsGranted db repo user l (ground arith), ground arith)
      ]

  -- Under the unique constraints, a caller with a grant that reaches the minimum passes the check.
  pub IsGranted-assert_permission :
      (keys : HasUniqueKeys db) (user : Option ℕ) (minimum g : PermissionLevel)
      → IsGranted db user repo g
      → level_rank minimum ≤ level_rank g
      → (l : PermissionLevel) × (assert_permission db user repo minimum ≡ ok l)
  unfolding assert_permission checked meets_minimum
  IsGranted-assert_permission keys user minimum g i h =
      let (r, e) = resolve_permission_total db keys repo user in
      let top = resolve_permission_greatest db repo user r g e i in
      elim (Option-cases r) [
        | inl n ↦ absurd (omega (arith, ap option_rank n, level_rank_pos g))
        | inr (k, s) ↦ (k, rw (e, s) (ground (arith, ap option_rank s)))
      ]

  -- A refused caller: an anonymous one is asked to log in, another is denied.
  pub assert_permission-refusal :
      (keys : HasUniqueKeys db) (user : Option ℕ) (minimum : PermissionLevel) (e : Error)
      → assert_permission db user repo minimum ≡ err e
      → (e ≡ refusal user)
        × ((g : PermissionLevel) → IsGranted db user repo g → level_rank g < level_rank minimum)
  unfolding assert_permission checked meets_minimum
  assert_permission-refusal keys user minimum e h =
      let (r, q) = resolve_permission_total db keys repo user in
      elim (Option-cases r) [
        | inl n ↦ (
          ground arith,
          λ g i. absurd (
              omega (
                arith,
                ap option_rank n,
                level_rank_pos g,
                resolve_permission_greatest db repo user r g q i,
              )),
        )
        | inr (k, s) ↦ (
          ground arith,
          λ g i. ground (arith, ap option_rank s, resolve_permission_greatest db repo user r g q i),
        )
      ]

  anonymous_grant :
      (l : PermissionLevel) → IsGranted db none repo l → (repo.visibility ≡ public) × (l ≡ read)
  anonymous_grant l (by_ownership u p _ _) = cc
  anonymous_grant l (by_organization u m p _ _ _ _ _) = cc
  anonymous_grant l (by_collaboration u c p _ _ _ _) = cc
  anonymous_grant l (by_team u m t p _ _ _ _ _ _) = cc
  anonymous_grant l (by_public v e) = (v, e)
  anonymous_grant l (by_internal u p _ _) = cc

  lowest : (l : PermissionLevel) → level_rank l ≤ level_rank read → l ≡ read
  unfolding level_rank
  lowest l h = ground arith

  -- An anonymous caller gets through a route's check only to read a public repository, and only if
  -- the route allows anonymous callers.
  pub require_repo_permission_anonymous :
      (minimum l : PermissionLevel) (allow_anonymous : Bool)
      → require_repo_permission db minimum allow_anonymous none repo ≡ ok l
      → (allow_anonymous ≡ true) × (repo.visibility ≡ public) × (minimum ≡ read) × (l ≡ read)
  unfolding require_repo_permission assert_permission
  require_repo_permission_anonymous minimum l false h = ground arith
  require_repo_permission_anonymous minimum l true h =
      let (i, m) = assert_permission-IsGranted none minimum l h in
      let (public_repo, only_read) = anonymous_grant l i in
      (refl, public_repo, lowest minimum (rw only_read at m), only_read)
