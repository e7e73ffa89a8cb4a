-- ===== src/Permissions/Resolve.antt =====
-- resolver.py: what `resolve_permission` returns was granted.
use pandahub.Prelude.{
  ℕ, ◌≡◌, ◌≢◌, refl, sym, ap, ◌∙◌, inl, inr, Option, none, some, true, false, arith, ◌&&◌, ◌==◌,
  Bool-cases, Option-cases,
}
use pandahub.Exceptions.{ok, chain_inversion}
use pandahub.Table.Laws.{scalar_some, any-In, In, select-In, map-In}
use pandahub.Enums.{PermissionLevel, OrganizationRole, public, private, internal}
use pandahub.Permissions.{
  Repository, OrganizationMember, TeamMember, TeamRepository, RepositoryCollaborator, AccessTables,
  max_level, is_owner, is_admin_role, administers, organization_role, collaborates,
  collaborator_level, team_grants, team_levels, highest, visibility_level, fallback,
  resolve_permission,
}
use pandahub.Permissions.Rank.{highest_source}
use pandahub.Permissions.Granted.{
  IsGranted, by_ownership, by_organization, by_collaboration, by_team, by_public, by_internal,
}

module _ (db : AccessTables) (repo : Repository) where
  role_source :
      (user : Option ℕ) (organization : Option ℕ) (role : OrganizationRole)
      → organization_role db user organization ≡ ok (some role)
      → (u : ℕ) × (m : OrganizationMember) × (user ≡ some u)
        × In m db.organization_members
        × (organization ≡ some m.organization_id)
        × (m.user_id ≡ u)
        × (m.role ≢ OrganizationRole.member)
  unfolding organization_role administers is_admin_role
  role_source none organization role h = ground arith
  role_source (some u) none role h = ground arith
  role_source (some u) (some o) role h =
      let (m, i, e) = map-In (λ (m : OrganizationMember). m.role) _ (scalar_some _ h) in
      let (t, j) = select-In (administers o u) db.organization_members i in
      (u, m, refl, j, ground arith, ground arith, ground arith)

  collaborator_source :
      (user : Option ℕ) (l : PermissionLevel)
      → collaborator_level db user repo ≡ ok (some l)
      → IsGranted db user repo l
  unfolding collaborator_level collaborates
  collaborator_source none l h = ground arith
  collaborator_source (some u) l h =
      let (c, i, e) = map-In (λ (c : RepositoryCollaborator). c.permission) _ (scalar_some _ h) in
      let (t, j) = select-In (collaborates repo.id u) db.collaborators i in
      by_collaboration u c refl j (ground arith) (ground arith) e

  team_source :
      (user : Option ℕ) (l : PermissionLevel)
      → In l (team_levels db user repo)
      → IsGranted db user repo l
  unfolding team_levels team_grants
  team_source none l m = elim m [ ]
  team_source (some u) l m =
      let (t, i, e) = map-In (λ (t : TeamRepository). t.permission) _ m in
      let (b, j) = select-In (team_grants db repo.id u) db.team_repositories i in
      let (k, n, c) =
        any-In (λ (m : TeamMember). m.user_id == u && m.team_id == t.team_id) db.team_members
          (ground arith) in
      by_team u k t refl n j (ground arith) (ground arith) (ground arith) e

  visibility_source :
      (user : Option ℕ) (l : PermissionLevel)
      → visibility_level user repo.visibility ≡ some l
      → IsGranted db user repo l
  unfolding visibility_level
  visibility_source user l h =
      elim repo.visibility
          as (λ v.
            repo.visibility ≡ v → visibility_level user v ≡ some l → IsGranted db user repo l) [
              | public ↦ λ e q. by_public e (ground arith)
              | private ↦ λ e q. ground arith
              | internal ↦ λ e q. elim (Option-cases user) [
                | inl n ↦ ground arith
                | inr p ↦ by_internal p.0 p.1 e (ground arith)
              ]
            ]
        refl h

  owner_source :
      (user : Option ℕ) (l : PermissionLevel)
      → is_owner user repo ≡ true
      → l ≡ PermissionLevel.admin
      → IsGranted db user repo l
  unfolding is_owner
  owner_source none l h q = cc
  owner_source (some u) l h q = by_ownership u refl (ground arith) q

  -- How a call returned: each way with the query answers that led there.
  pub data Returned (user : Option ℕ) (r : Option PermissionLevel) : Type 0 where
    as_owner : is_owner user repo ≡ true → r ≡ some PermissionLevel.admin → Returned user r
    as_administrator :
        (role : OrganizationRole)
        → organization_role db user repo.owner_organization_id ≡ ok (some role)
        → r ≡ some PermissionLevel.admin
        → Returned user r
    by_grants :
        (collab : Option PermissionLevel)
        → is_owner user repo ≡ false
        → organization_role db user repo.owner_organization_id ≡ ok none
        → collaborator_level db user repo ≡ ok collab
        → r
          ≡ fallback
              (highest (max_level none collab) (team_levels db user repo))
              (visibility_level user repo.visibility)
        → Returned user r

  pub resolve-Returned :
      (user : Option ℕ) (r : Option PermissionLevel)
      → resolve_permission db user repo ≡ ok r
      → Returned user r
  unfolding resolve_permission
  resolve-Returned user r h = elim (Bool-cases (is_owner user repo)) [
    | inl e ↦ as_owner e (cc (rw e at h))
    | inr e ↦
        let (role, q, h') =
          chain_inversion (organization_role db user repo.owner_organization_id) _ (rw e at h) in
        elim (Option-cases role) [
          | inl none_role ↦
              let (collab, c, h'') =
                chain_inversion (collaborator_level db user repo) _ (rw none_role at h') in
              by_grants collab e (q ∙ ap ok none_role) c (ground arith)
          | inr (x, some_role) ↦ as_administrator x (q ∙ ap ok some_role) (ground arith)
        ]
  ]

  -- What the resolver returns was granted by one of the rules.
  pub resolve_permission-IsGranted :
      (user : Option ℕ) (l : PermissionLevel)
      → resolve_permission db user repo ≡ ok (some l)
      → IsGranted db user repo l
  unfolding fallback max_level
  resolve_permission-IsGranted user l h = elim (resolve-Returned user (some l) h) [
    | as_owner e q ↦ owner_source user l e (cc)
    | as_administrator role e q ↦
        let (u, m, p, i, o, w, n) = role_source user repo.owner_organization_id role e in
        by_organization u m p i o w n (cc)
    | by_grants collab e o c q ↦
        elim (Option-cases (highest (max_level none collab) (team_levels db user repo))) [
          | inl n ↦ visibility_source user l (sym (rw n at q))
          | inr (k, g) ↦
              elim (highest_source (max_level none collab) (team_levels db user repo) {l = l}
                (ground arith)) [
                  | inl s ↦ collaborator_source user l (c ∙ ap ok s)
                  | inr m ↦ team_source user l m
                ]
        ]
  ]
