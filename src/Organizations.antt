-- ===== src/Organizations.antt =====
-- backend/app/api/v1/orgs.py: the routes for organizations, their members and teams. The caller is
-- the user that the route's dependency gives.
pub mod Store
pub mod Teams
pub mod Owners
pub mod Members
mod Tests
use text.Mathlib.Text.{◌==◌ as str_eq}
use pandahub.Prelude.{
  ℕ, Option, none, some, Bool, true, false, not, ◌&&◌, String, List, [], ◌∷◌, ◌++◌, is_some, ◌==◌,
}
use pandahub.Exceptions.{Error.http, HttpStatus.forbidden, HttpStatus.missing, HttpStatus.taken}
use pandahub.Session.{Exec, pure, raise, lift, query, or_raise, modify, flush, commit, ◌>>=◌, ◌>>◌}
use pandahub.Table.{select, scalar_one_or_none, update_where, delete_where}
use pandahub.Enums.{OrganizationRole, owner}
use pandahub.Permissions.{OrganizationMember, TeamMember, AccessTables}
use pandahub.Repos.Store.{User}
use pandahub.Organizations.Store.{
  Organization, Team, OrgCreate, OrgUpdate, MemberAdd, TeamCreate, OrgStore, satisfies_constraints,
  remove_team, remove_organization,
}

-- if not …: raise HTTPException(status_code=404)
unfoldable pub or_404 : {A : Type 0} → Option A → Exec OrgStore A
or_404 none = raise (http missing)
or_404 (some x) = pure x

unfoldable pub get_org_or_404 : (name : String) → Exec OrgStore Organization
get_org_or_404 name = do
  rows ← query (λ d. select (λ o. str_eq o.name name) d.organizations)
  org ← lift (scalar_one_or_none rows)
  or_404 org

unfoldable pub is_owner_role : OrganizationRole → Bool
is_owner_role owner = true
is_owner_role OrganizationRole.admin = false
is_owner_role OrganizationRole.member = false

unfoldable pub is_member_of : (org_id user_id : ℕ) → OrganizationMember → Bool
is_member_of org_id user_id m = m.organization_id == org_id && m.user_id == user_id

unfoldable pub is_owner_of : (org_id user_id : ℕ) → OrganizationMember → Bool
is_owner_of org_id user_id m = is_member_of org_id user_id m && is_owner_role m.role

unfoldable pub require_org_owner : Organization → User → Exec OrgStore (Unit {0})
require_org_owner org user = do
  rows ← query (λ d. select (is_owner_of org.id user.id) d.access.organization_members)
  found ← lift (scalar_one_or_none rows)
  or_raise (not (is_some found)) (http forbidden)

unfoldable pub member_or_403 : Option OrganizationMember → Exec OrgStore OrganizationMember
member_or_403 none = raise (http forbidden)
member_or_403 (some member) = pure member

unfoldable pub require_org_member : Organization → User → Exec OrgStore OrganizationMember
require_org_member org user = do
  rows ← query (λ d. select (is_member_of org.id user.id) d.access.organization_members)
  found ← lift (scalar_one_or_none rows)
  member_or_403 found

unfoldable pub user_or_404 : (username : String) → Exec OrgStore User
user_or_404 username = do
  rows ← query (λ d. select (λ u. str_eq u.username username) d.users)
  found ← lift (scalar_one_or_none rows)
  or_404 found

unfoldable pub with_members :
    (List OrganizationMember → List OrganizationMember) → OrgStore → OrgStore
with_members change d = record d {
  access = record d.access { organization_members = change d.access.organization_members };
}

unfoldable pub with_team_members : (List TeamMember → List TeamMember) → OrgStore → OrgStore
with_team_members change d = record d {
  access = record d.access { team_members = change d.access.team_members };
}

unfoldable pub new_organization : (org_id user_id : ℕ) → OrgCreate → Organization
new_organization org_id user_id payload = record {
  id = org_id;
  name = payload.name;
  display_name = payload.display_name;
  description = payload.description;
  avatar_url = payload.avatar_url;
  website_url = payload.website_url;
  created_by = some user_id;
}

unfoldable pub add_organization : Organization → OrgStore → OrgStore
add_organization org d = record d { organizations = d.organizations ++ org ∷ [] }

unfoldable pub add_org_member : OrganizationMember → OrgStore → OrgStore
add_org_member m = with_members (λ ms. ms ++ m ∷ [])

unfoldable pub create_org :
    (org_id : ℕ) → OrgCreate → (current_user : User) → Exec OrgStore Organization
create_org org_id payload current_user = do
  rows ← query (λ d. select (λ o. str_eq o.name payload.name) d.organizations)
  existing ← lift (scalar_one_or_none rows)
  or_raise (is_some existing) (http taken)
  modify (add_organization (new_organization org_id current_user.id payload))
  flush satisfies_constraints
  modify (
      add_org_member (record { organization_id = org_id; user_id = current_user.id; role = owner }))
  commit satisfies_constraints
  pure (new_organization org_id current_user.id payload)

-- model_dump(exclude_none=True): a field that is none stays as it is.
unfoldable pub or_kept : {A : Type 0} → Option A → A → A
or_kept none old = old
or_kept (some new) old = new

unfoldable pub or_kept_option : {A : Type 0} → Option A → Option A → Option A
or_kept_option none old = old
or_kept_option (some new) old = some new

unfoldable pub set_fields : OrgUpdate → Organization → Organization
set_fields payload org = record org {
  display_name = or_kept payload.display_name org.display_name;
  description = or_kept_option payload.description org.description;
  avatar_url = or_kept_option payload.avatar_url org.avatar_url;
  website_url = or_kept_option payload.website_url org.website_url;
}

unfoldable pub change_organization :
    (org_id : ℕ) → (Organization → Organization) → OrgStore → OrgStore
change_organization org_id change d = record d {
  organizations = update_where (λ o. o.id == org_id) change d.organizations;
}

-- The checks that the routes which change an organization start with.
unfoldable pub owned : (org_name : String) → (current_user : User) → Exec OrgStore Organization
owned org_name current_user = do
  org ← get_org_or_404 org_name
  require_org_owner org current_user
  pure org

module _ (org_name : String) where
  unfoldable pub get_org : Exec OrgStore Organization
  get_org = get_org_or_404 org_name

  module _ (current_user : User) where
    unfoldable pub update_org : OrgUpdate → Exec OrgStore Organization
    update_org payload = do
      org ← owned org_name current_user
      modify (change_organization org.id (set_fields payload))
      commit satisfies_constraints
      pure (set_fields payload org)

    unfoldable pub delete_org : Exec OrgStore (Unit {0})
    delete_org = do
      org ← owned org_name current_user
      modify (remove_organization org.id)
      commit satisfies_constraints

    unfoldable pub add_member : MemberAdd → Exec OrgStore User
    add_member payload = do
      org ← owned org_name current_user
      target ← user_or_404 payload.username
      rows ← query (λ d. select (is_member_of org.id target.id) d.access.organization_members)
      existing ← lift (scalar_one_or_none rows)
      or_raise (is_some existing) (http taken)
      modify (
          add_org_member
            (record { organization_id = org.id; user_id = target.id; role = payload.role }))
      commit satisfies_constraints
      pure target

    unfoldable pub remove_member : (user_id : ℕ) → Exec OrgStore (Unit {0})
    remove_member user_id = do
      org ← owned org_name current_user
      rows ← query (λ d. select (is_member_of org.id user_id) d.access.organization_members)
      found ← lift (scalar_one_or_none rows)
      or_404 found
      modify (with_members (delete_where (is_member_of org.id user_id)))
      commit satisfies_constraints

    unfoldable pub list_teams : Exec OrgStore (List Team)
    list_teams = do
      org ← get_org_or_404 org_name
      require_org_member org current_user
      query (λ d. select (λ t. t.organization_id == org.id) d.teams)
