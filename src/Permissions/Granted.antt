-- ===== src/Permissions/Granted.antt =====
-- resolver.py: the grants that its docstring lists, said without the resolver.
use pandahub.Prelude.{ℕ, ◌≡◌, ◌≢◌, Option, some}
use pandahub.Table.Laws.{In}
use pandahub.Enums.{PermissionLevel, read, admin, OrganizationRole, public, internal}
use pandahub.Permissions.{
  Repository, OrganizationMember, TeamMember, TeamRepository, RepositoryCollaborator, AccessTables,
}

-- One of the five rules grants the level `l` to the caller.
pub data IsGranted (db : AccessTables) (user : Option ℕ) (repo : Repository) (l : PermissionLevel)
    : Type 0 where
  by_ownership :
      (u : ℕ) → user ≡ some u → repo.owner_user_id ≡ some u → l ≡ admin → IsGranted db user repo l
  by_organization :
      (u : ℕ) (m : OrganizationMember)
      → user ≡ some u
      → In m db.organization_members
      → repo.owner_organization_id ≡ some m.organization_id
      → m.user_id ≡ u
      → m.role ≢ OrganizationRole.member
      → l ≡ admin
      → IsGranted db user repo l
  by_collaboration :
      (u : ℕ) (c : RepositoryCollaborator)
      → user ≡ some u
      → In c db.collaborators
      → c.repository_id ≡ repo.id
      → c.user_id ≡ u
      → l ≡ c.permission
      → IsGranted db user repo l
  by_team :
      (u : ℕ) (m : TeamMember) (t : TeamRepository)
      → user ≡ some u
      → In m db.team_members
      → In t db.team_repositories
      → m.user_id ≡ u
      → m.team_id ≡ t.team_id
      → t.repository_id ≡ repo.id
      → l ≡ t.permission
      → IsGranted db user repo l
  by_public : repo.visibility ≡ public → l ≡ read → IsGranted db user repo l
  by_internal :
      (u : ℕ) → user ≡ some u → repo.visibility ≡ internal → l ≡ read → IsGranted db user repo l
