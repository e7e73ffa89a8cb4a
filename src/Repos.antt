-- ===== src/Repos.antt =====
-- backend/app/services/repo_service.py: the lookup, and what touches only the database.
pub mod Store
pub mod Valid
pub mod Lookup
pub mod Disk
pub mod Marks
pub mod Collaborators
pub mod Steps
pub mod Routes
mod Tests
use text.Mathlib.Text.{◌==◌ as str_eq}
use mathlib.Core.Option.{get_or}
use pandahub.Prelude.{
  ℕ, Option, none, some, Bool, true, false, not, ◌&&◌, ◌||◌, String, map, is_some, is_some_of, ◌==◌,
  if◌then◌else◌,
}
use pandahub.Exceptions.{Error.integrity, Error.conflict, Error.permission_denied, Error.not_found}
use pandahub.Session.{Exec, pure, raise, lift, query, or_raise, modify, commit, ◌>>=◌, ◌>>◌}
use pandahub.Table.{select, scalar_one_or_none}
use pandahub.Permissions.{administers, is_admin_role}
use pandahub.Repos.Store.{
  Patch, unset, null, given, Repository, User, RepositoryUpdate, RepoStore, satisfies_constraints,
  change_repository, is_owned_by,
}

-- Repository.id != exclude_repo_id, if one is given
unfoldable pub is_excluded : Option ℕ → Repository → Bool
is_excluded exclude r = is_some_of exclude r.id

-- The query for a repository with the name.
unfoldable pub has_name :
    (name : String) → (owner_user_id owner_organization_id exclude : Option ℕ) → Repository → Bool
has_name name owner_user_id owner_organization_id exclude r =
    str_eq r.name name
    && (is_owned_by owner_user_id owner_organization_id r && not (is_excluded exclude r))

unfoldable pub ensure_name_available :
    (name : String)
    → (owner_user_id owner_organization_id exclude : Option ℕ) → Exec RepoStore (Unit {0})
ensure_name_available name owner_user_id owner_organization_id exclude = do
  rows ←
      query (λ d. select (has_name name owner_user_id owner_organization_id exclude) d.repositories)
  existing ← lift (scalar_one_or_none rows)
  or_raise (is_some existing) conflict

-- Repository.owner_user_id == owner_user_id, Repository.name == repo_name
unfoldable pub is_named_of_user : (owner_user_id : ℕ) → (repo_name : String) → Repository → Bool
is_named_of_user owner_user_id repo_name r =
    is_some_of r.owner_user_id owner_user_id && str_eq r.name repo_name

unfoldable pub is_named_of_organization :
    (owner_organization_id : ℕ) → (repo_name : String) → Repository → Bool
is_named_of_organization owner_organization_id repo_name r =
    is_some_of r.owner_organization_id owner_organization_id && str_eq r.name repo_name

-- select(User.id).where(User.username == owner_slug)
unfoldable pub user_named : (owner_slug : String) → Exec RepoStore (Option ℕ)
user_named owner_slug = do
  rows ← query (λ d. map (λ u. u.id) (select (λ u. str_eq u.username owner_slug) d.users))
  lift (scalar_one_or_none rows)

-- select(Organization.id).where(Organization.name == owner_slug)
unfoldable pub organization_named : (owner_slug : String) → Exec RepoStore (Option ℕ)
organization_named owner_slug = do
  rows ← query (λ d. map (λ o. o.id) (select (λ o. str_eq o.name owner_slug) d.organizations))
  lift (scalar_one_or_none rows)

unfoldable pub repository_of_user :
    (owner_user_id : ℕ) → (repo_name : String) → Exec RepoStore (Option Repository)
repository_of_user owner_user_id repo_name = do
  rows ← query (λ d. select (is_named_of_user owner_user_id repo_name) d.repositories)
  lift (scalar_one_or_none rows)

unfoldable pub repository_of_organization :
    (owner_organization_id : ℕ) → (repo_name : String) → Exec RepoStore (Option Repository)
repository_of_organization owner_organization_id repo_name = do
  rows ←
      query (λ d. select (is_named_of_organization owner_organization_id repo_name) d.repositories)
  lift (scalar_one_or_none rows)

-- if owner_org_id is None: return None
unfoldable pub in_organization :
    (repo_name : String) → Option ℕ → Exec RepoStore (Option Repository)
in_organization repo_name none = pure none
in_organization repo_name (some o) = repository_of_organization o repo_name

-- The user of the slug goes first; an organization is asked for only without one.
unfoldable pub of_user_or_organization :
    (owner_slug repo_name : String) → Option ℕ → Exec RepoStore (Option Repository)
of_user_or_organization owner_slug repo_name (some u) = repository_of_user u repo_name
of_user_or_organization owner_slug repo_name none = do
  owner_org_id ← organization_named owner_slug
  in_organization repo_name owner_org_id

unfoldable pub get_repo_by_owner_and_name :
    (owner_slug repo_name : String) → Exec RepoStore (Option Repository)
get_repo_by_owner_and_name owner_slug repo_name = do
  owner_user_id ← user_named owner_slug
  of_user_or_organization owner_slug repo_name owner_user_id

-- The actor's role in the organization, if the payload names one.
unfoldable pub check_organization_role : (actor_id : ℕ) → Option ℕ → Exec RepoStore (Unit {0})
check_organization_role actor_id none = pure tt
check_organization_role actor_id (some o) = do
  rows ←
      query (λ d. map (λ m. m.role) (select (administers o actor_id) d.access.organization_members))
  role ← lift (scalar_one_or_none rows)
  or_raise (not (is_some role)) permission_denied

-- The user who owns the new repository: the actor, unless it belongs to an organization.
unfoldable pub owner_user : (actor_id : ℕ) → (owner_organization_id : Option ℕ) → Option ℕ
owner_user actor_id none = some actor_id
owner_user actor_id (some o) = none

unfoldable pub is_null : {A : Type 0} → Patch A → Bool
is_null unset = false
is_null null = true
is_null (given x) = false

-- A null in one of these columns breaks a NOT NULL constraint when the commit flushes it.
unfoldable pub breaks_not_null : RepositoryUpdate → Bool
breaks_not_null payload =
    is_null payload.visibility
    || (is_null payload.default_branch
        || (is_null payload.is_archived || is_null payload.is_template))

unfoldable pub patched : {A : Type 0} → Patch A → A → A
patched unset old = old
patched null old = old
patched (given new) old = new

-- A column that takes NULL.
unfoldable pub patched_option : {A : Type 0} → Patch A → Option A → Option A
patched_option unset old = old
patched_option null old = none
patched_option (given new) old = some new

unfoldable pub set_metadata : RepositoryUpdate → Repository → Repository
set_metadata payload r = record r {
  description = patched_option payload.description r.description;
  visibility = patched payload.visibility r.visibility;
  default_branch = patched payload.default_branch r.default_branch;
  is_archived = patched payload.is_archived r.is_archived;
  is_template = patched payload.is_template r.is_template;
}

unfoldable pub update_repository : Repository → RepositoryUpdate → Exec RepoStore Repository
update_repository repo payload = do
  modify (change_repository repo.id (set_metadata payload))
  or_raise (breaks_not_null payload) integrity
  commit satisfies_constraints
  pure (set_metadata payload repo)
