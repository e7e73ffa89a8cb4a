-- ===== src/Permissions/Greatest.antt =====
-- resolver.py: `resolve_permission` returns the greatest level that is granted.
use pandahub.Prelude.{ℕ, ◌≤◌, ◌≡◌, ◌≢◌, ap, Option, none, some, true, false, arith, ◌&&◌, ◌==◌}
use pandahub.Exceptions.{ok}
use pandahub.Table.Laws.{scalar_In, In-any, In, In-select, In-map}
use pandahub.Enums.{PermissionLevel, read, OrganizationRole, public, internal}
use pandahub.Permissions.{
  Repository, OrganizationMember, TeamMember, TeamRepository, RepositoryCollaborator, AccessTables,
  level_rank, max_level, is_owner, is_admin_role, administers, organization_role, collaborates,
  collaborator_level, team_grants, team_levels, highest, visibility_level, fallback,
  resolve_permission,
}
use pandahub.Permissions.Rank.{
  option_rank, level_rank_pos, level_rank_max, option_rank-max_level, option_rank-highest,
  highest-In,
}
use pandahub.Permissions.Granted.{
  IsGranted, by_ownership, by_organization, by_collaboration, by_team, by_public, by_internal,
}
use pandahub.Permissions.Resolve.{as_owner, as_administrator, by_grants, resolve-Returned}

module _ (db : AccessTables) (repo : Repository) where
  fallback_first : (a b : Option PermissionLevel) → option_rank a ≤ option_rank (fallback a b)
  unfolding fallback
  fallback_first none b = omega arith
  fallback_first (some l) b = omega arith

  fallback_second :
      (a b : Option PermissionLevel) → b ≡ some read → level_rank read ≤ option_rank (fallback a b)
  unfolding fallback level_rank
  fallback_second none b h = ground arith
  fallback_second (some l) b h = level_rank_pos l

  owner_found : (u : ℕ) → repo.owner_user_id ≡ some u → is_owner (some u) repo ≡ true
  unfolding is_owner
  owner_found u q = ground arith

  role_found :
      (u : ℕ) (m : OrganizationMember)
      → In m db.organization_members
      → m.user_id ≡ u
      → m.role ≢ OrganizationRole.member
      → organization_role db (some u) (some m.organization_id) ≢ ok none
  unfolding organization_role administers is_admin_role
  role_found u m i w n h =
      let found =
        In-select (administers m.organization_id u) db.organization_members {x = m} (ground arith)
          i in
      let r = scalar_In _ m.role h (In-map (λ (m : OrganizationMember). m.role) _ m found) in cc

  collaborator_found :
      (u : ℕ) (k : RepositoryCollaborator) (collab : Option PermissionLevel)
      → In k db.collaborators
      → k.repository_id ≡ repo.id
      → k.user_id ≡ u
      → collaborator_level db (some u) repo ≡ ok collab
      → collab ≡ some k.permission
  unfolding collaborator_level collaborates
  collaborator_found u k collab i q w c =
      let found = In-select (collaborates repo.id u) db.collaborators {x = k} (ground arith) i in
      scalar_In _ k.permission c (In-map (λ (c : RepositoryCollaborator). c.permission) _ k found)

  team_found :
      (u : ℕ) (k : TeamMember) (t : TeamRepository)
      → In k db.team_members
      → In t db.team_repositories
      → k.user_id ≡ u
      → k.team_id ≡ t.team_id
      → t.repository_id ≡ repo.id
      → In t.permission (team_levels db (some u) repo)
  unfolding team_levels team_grants
  team_found u k t i j q w v =
      let m =
        In-any (λ (m : TeamMember). m.user_id == u && m.team_id == t.team_id) db.team_members k i
          (ground arith) in
      In-map (λ (t : TeamRepository). t.permission) _ t
        (In-select (team_grants db repo.id u) db.team_repositories {x = t} (ground arith) j)

  visibility_found :
      (user : Option ℕ)
      → repo.visibility ≡ public
      → visibility_level user repo.visibility ≡ some read
  unfolding visibility_level
  visibility_found user v = rw v

  internal_found :
      (u : ℕ) → repo.visibility ≡ internal → visibility_level (some u) repo.visibility ≡ some read
  unfolding visibility_level
  internal_found u v = rw v

  -- The greatest of what the queries found ranks at least as high as every grant.
  grants_below :
      (user : Option ℕ) (collab : Option PermissionLevel) (l : PermissionLevel)
      → is_owner user repo ≡ false
      → organization_role db user repo.owner_organization_id ≡ ok none
      → collaborator_level db user repo ≡ ok collab
      → IsGranted db user repo l
      → level_rank l
        ≤ option_rank (
            fallback
              (highest (max_level none collab) (team_levels db user repo))
              (visibility_level user repo.visibility))
  grants_below user collab l e o c (by_ownership u p q _) =
      absurd (cc (owner_found u q, e, ap (λ v. is_owner v repo) p))
  grants_below user collab l e o c (by_organization u m p i q w n _) =
      absurd (role_found u m i w n (rw (p, q) at o))
  grants_below user collab l e o c (by_collaboration u k p i q w h) = omega (
    arith,
    ap level_rank h,
    ap option_rank (collaborator_found u k collab i q w (rw p at c)),
    option_rank-max_level none collab,
    option_rank-highest (max_level none collab) (team_levels db user repo),
    fallback_first (highest (max_level none collab) (team_levels db user repo))
        (visibility_level user repo.visibility),
  )
  grants_below user collab l e o c (by_team u k t p i j q w v h) = rw p (
      omega (
        arith,
        ap level_rank h,
        highest-In (max_level none collab) _ t.permission (team_found u k t i j q w v),
        fallback_first (highest (max_level none collab) (team_levels db (some u) repo))
            (visibility_level (some u) repo.visibility),
      ))
  grants_below user collab l e o c (by_public v h) = omega (
    arith,
    ap level_rank h,
    fallback_second (highest (max_level none collab) (team_levels db user repo))
        (visibility_level user repo.visibility) (visibility_found user v),
  )
  grants_below user collab l e o c (by_internal u p v h) = rw p (
      omega (
        arith,
        ap level_rank h,
        fallback_second (highest (max_level none collab) (team_levels db (some u) repo))
            (visibility_level (some u) repo.visibility) (internal_found u v),
      ))

  -- No rule grants more than the resolver returns; a caller with no level has no grant.
  pub resolve_permission_greatest :
      (user : Option ℕ) (r : Option PermissionLevel) (l : PermissionLevel)
      → resolve_permission db user repo ≡ ok r
      → IsGranted db user repo l
      → level_rank l ≤ option_rank r
  unfolding level_rank
  resolve_permission_greatest user r l h g = elim (resolve-Returned db repo user r h) [
    | as_owner e q ↦ rw q (level_rank_max l)
    | as_administrator role e q ↦ rw q (level_rank_max l)
    | by_grants collab e o c q ↦ rw q (grants_below user collab l e o c g)
  ]
