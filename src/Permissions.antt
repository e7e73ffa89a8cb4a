-- ===== src/Permissions.antt =====
-- backend/app/permissions/resolver.py, over the rows of models/organization.py and models/repo.py.
pub mod Rank
pub mod Granted
pub mod Resolve
pub mod Greatest
pub mod Text
pub mod Access
mod Tests
use pandahub.Prelude.{
  ℕ, Option, none, some, Bool, true, false, String, List, [], ◌∷◌, map, ◌&&◌, ◌||◌, any, is_some,
  is_some_of, leb, ◌==◌, if◌then◌else◌,
}
use pandahub.Exceptions.{Error, Error.unauthorized, Error.permission_denied, Result, ok, err, ◌>>=◌}
use pandahub.Table.{select, scalar_one_or_none}
use pandahub.Enums.{
  RepositoryVisibility, public, private, internal, PermissionLevel, read, triage, write, maintain,
  OrganizationRole,
}

pub record Repository : Type 0 where
  pub id : ℕ
  pub owner_user_id : Option ℕ
  pub owner_organization_id : Option ℕ
  pub name : String
  pub visibility : RepositoryVisibility
  pub disk_path : String

pub record OrganizationMember : Type 0 where
  pub organization_id : ℕ
  pub user_id : ℕ
  pub role : OrganizationRole

pub record TeamMember : Type 0 where
  pub team_id : ℕ
  pub user_id : ℕ

pub record TeamRepository : Type 0 where
  pub team_id : ℕ
  pub repository_id : ℕ
  pub permission : PermissionLevel

pub record RepositoryCollaborator : Type 0 where
  pub repository_id : ℕ
  pub user_id : ℕ
  pub permission : PermissionLevel

-- The tables that the resolver reads.
pub record AccessTables : Type 0 where
  pub organization_members : List OrganizationMember
  pub collaborators : List RepositoryCollaborator
  pub team_members : List TeamMember
  pub team_repositories : List TeamRepository

-- _LEVEL_RANK
unfoldable pub level_rank : PermissionLevel → ℕ
level_rank read = 1
level_rank triage = 2
level_rank write = 3
level_rank maintain = 4
level_rank PermissionLevel.admin = 5

unfoldable pub max_level : Option PermissionLevel → Option PermissionLevel → Option PermissionLevel
max_level none b = b
max_level (some a) none = some a
max_level (some a) (some b) = if leb (level_rank b) (level_rank a) then some a else some b

unfoldable pub meets_minimum : Option PermissionLevel → PermissionLevel → Bool
meets_minimum none minimum = false
meets_minimum (some l) minimum = leb (level_rank minimum) (level_rank l)

-- Step 1: the caller is the owner.
unfoldable pub is_owner : Option ℕ → Repository → Bool
is_owner none repo = false
is_owner (some u) repo = is_some_of repo.owner_user_id u

-- OrganizationMember.role.in_([OWNER, ADMIN])
unfoldable pub is_admin_role : OrganizationRole → Bool
is_admin_role OrganizationRole.owner = true
is_admin_role OrganizationRole.admin = true
is_admin_role OrganizationRole.member = false

-- The WHERE clause of step 2.
unfoldable pub administers : (organization user : ℕ) → OrganizationMember → Bool
administers organization user m =
    m.organization_id == organization && m.user_id == user && is_admin_role m.role

-- Step 2: the caller's administrative role in the owning organization.
unfoldable pub organization_role :
    AccessTables → Option ℕ → Option ℕ → Result (Option OrganizationRole)
organization_role db none organization = ok none
organization_role db (some u) none = ok none
organization_role db (some u) (some organization) =
    scalar_one_or_none
      (map (λ m. m.role) (select (administers organization u) db.organization_members))

unfoldable pub collaborates : (repository user : ℕ) → RepositoryCollaborator → Bool
collaborates repository user c = c.repository_id == repository && c.user_id == user

-- Step 3: the direct grant.
unfoldable pub collaborator_level :
    AccessTables → Option ℕ → Repository → Result (Option PermissionLevel)
collaborator_level db none repo = ok none
collaborator_level db (some u) repo =
    scalar_one_or_none (map (λ c. c.permission) (select (collaborates repo.id u) db.collaborators))

-- TeamRepository.team_id.in_(select(TeamMember.team_id).where(TeamMember.user_id == user_id))
unfoldable pub team_grants : AccessTables → (repository user : ℕ) → TeamRepository → Bool
team_grants db repository user t =
    t.repository_id == repository
    && any (λ m. m.user_id == user && m.team_id == t.team_id) db.team_members

-- Step 4: the levels that the caller's teams have.
unfoldable pub team_levels : AccessTables → Option ℕ → Repository → List PermissionLevel
team_levels db none repo = []
team_levels db (some u) repo =
    map (λ t. t.permission) (select (team_grants db repo.id u) db.team_repositories)

-- for row in team_grants: effective = _max_level(effective, row)
unfoldable pub highest : Option PermissionLevel → List PermissionLevel → Option PermissionLevel
highest effective [] = effective
highest effective (l ∷ ls) = highest (max_level effective (some l)) ls

-- Step 5: what everybody may do.
unfoldable pub visibility_level : Option ℕ → RepositoryVisibility → Option PermissionLevel
visibility_level user public = some read
visibility_level user internal = if is_some user then some read else none
visibility_level user private = none

unfoldable pub fallback : Option PermissionLevel → Option PermissionLevel → Option PermissionLevel
fallback (some l) otherwise = some l
fallback none otherwise = otherwise

unfoldable pub resolve_permission :
    AccessTables → Option ℕ → Repository → Result (Option PermissionLevel)
resolve_permission db user repo = if is_owner user repo then ok (some PermissionLevel.admin) else do
  role ← organization_role db user repo.owner_organization_id
  if is_some role then ok (some PermissionLevel.admin) else do
    collab ← collaborator_level db user repo
    let effective = highest (max_level none collab) (team_levels db user repo)
    ok (fallback effective (visibility_level user repo.visibility))

unfoldable pub refusal : Option ℕ → Error
refusal none = unauthorized
refusal (some u) = permission_denied

-- `return resolved`, which the test has shown not to be None
unfoldable pub checked :
    Option ℕ → PermissionLevel → Option PermissionLevel → Result PermissionLevel
checked user minimum none = err (refusal user)
checked user minimum (some l) = if meets_minimum (some l) minimum then ok l else err (refusal user)

unfoldable pub assert_permission :
    AccessTables → Option ℕ → Repository → PermissionLevel → Result PermissionLevel
assert_permission db user repo minimum = do
  resolved ← resolve_permission db user repo
  checked user minimum resolved

-- backend/app/api/dependencies.py: the check inside `require_repo_permission`
unfoldable pub require_repo_permission :
    AccessTables
    → PermissionLevel
    → (allow_anonymous : Bool) → Option ℕ
    → Repository
    → Result PermissionLevel
require_repo_permission db minimum false none repo = err unauthorized
require_repo_permission db minimum false (some u) repo = do
  resolved ← resolve_permission db (some u) repo
  checked (some u) minimum resolved
require_repo_permission db minimum true user repo = do
  resolved ← resolve_permission db user repo
  checked user minimum resolved
