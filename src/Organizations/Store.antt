-- ===== src/Organizations/Store.antt =====
-- backend/app/models/organization.py as api/v1/orgs.py uses it: the rows, their constraints and what
-- a deletion takes along.
use text.Mathlib.Text.{◌==◌ as str_eq}
use pandahub.Prelude.{ℕ, Option, Bool, ◌&&◌, ◌||◌, String, List, any, all, ◌==◌, is_some_of}
use pandahub.Table.{delete_where, unique}
use pandahub.Enums.{OrganizationRole}
use pandahub.Permissions.{Repository, OrganizationMember, TeamMember, AccessTables}
use pandahub.Permissions.Access.{same_member}
use pandahub.Repos.Store.{User}

pub record Organization : Type 0 where
  pub id : ℕ
  pub name : String
  pub display_name : String
  pub description : Option String
  pub avatar_url : Option String
  pub website_url : Option String
  pub created_by : Option ℕ

pub record Team : Type 0 where
  pub id : ℕ
  pub organization_id : ℕ
  pub name : String
  pub description : Option String

pub record OrgCreate : Type 0 where
  pub name : String
  pub display_name : String
  pub description : Option String
  pub avatar_url : Option String
  pub website_url : Option String

pub record OrgUpdate : Type 0 where
  pub display_name : Option String
  pub description : Option String
  pub avatar_url : Option String
  pub website_url : Option String

pub record MemberAdd : Type 0 where
  pub username : String
  pub role : OrganizationRole

pub record TeamCreate : Type 0 where
  pub name : String
  pub description : Option String

-- The tables that the routes read and write; the grants are those of the permission resolver.
pub record OrgStore : Type 0 where
  pub users : List User
  pub organizations : List Organization
  pub teams : List Team
  pub repositories : List Repository
  pub access : AccessTables

unfoldable pub same_id : Organization → Organization → Bool
same_id a b = a.id == b.id

unfoldable pub same_name : Organization → Organization → Bool
same_name a b = str_eq a.name b.name

unfoldable pub same_team_name : Team → Team → Bool
same_team_name a b = a.organization_id == b.organization_id && str_eq a.name b.name

unfoldable pub same_team_member : TeamMember → TeamMember → Bool
same_team_member a b = a.team_id == b.team_id && a.user_id == b.user_id

-- The foreign keys.
unfoldable pub has_organization : List Organization → ℕ → Bool
has_organization organizations id = any (λ o. o.id == id) organizations

unfoldable pub has_team : List Team → ℕ → Bool
has_team teams id = any (λ t. t.id == id) teams

unfoldable pub has_user : List User → ℕ → Bool
has_user users id = any (λ u. u.id == id) users

unfoldable pub organizations_valid : List Organization → Bool
organizations_valid organizations = unique same_id organizations && unique same_name organizations

unfoldable pub members_valid : List User → List Organization → List OrganizationMember → Bool
members_valid users organizations members =
    unique same_member members
    && all (λ m. has_organization organizations m.organization_id && has_user users m.user_id)
        members

unfoldable pub teams_valid : List Organization → List Team → Bool
teams_valid organizations teams =
    unique same_team_name teams && all (λ t. has_organization organizations t.organization_id) teams

unfoldable pub team_members_valid : List User → List Team → List TeamMember → Bool
team_members_valid users teams members =
    unique same_team_member members
    && all (λ m. has_team teams m.team_id && has_user users m.user_id) members

-- The constraints that the database checks when it commits.
unfoldable pub satisfies_constraints : OrgStore → Bool
satisfies_constraints d =
    organizations_valid d.organizations
    && (members_valid d.users d.organizations d.access.organization_members
        && (teams_valid d.organizations d.teams
            && team_members_valid d.users d.teams d.access.team_members))

-- Rows that reference a row which is gone go with it.
unfoldable pub remove_team : (team_id : ℕ) → OrgStore → OrgStore
remove_team team_id d = record d {
  teams = delete_where (λ t. t.id == team_id) d.teams;
  access = record d.access {
    team_members = delete_where (λ m. m.team_id == team_id) d.access.team_members;
    team_repositories = delete_where (λ r. r.team_id == team_id) d.access.team_repositories;
  };
}

unfoldable pub is_team_of : List Team → (org_id team_id : ℕ) → Bool
is_team_of teams org_id team_id = any (λ t. t.id == team_id && t.organization_id == org_id) teams

unfoldable pub is_repository_of : List Repository → (org_id repository_id : ℕ) → Bool
is_repository_of repositories org_id repository_id =
    any (λ r. r.id == repository_id && is_some_of r.owner_organization_id org_id) repositories

-- The grants that go with an organization, its teams and its repositories.
unfoldable pub remove_grants : (org_id : ℕ) → OrgStore → AccessTables
remove_grants org_id d = record {
  organization_members =
      delete_where (λ m. m.organization_id == org_id) d.access.organization_members;
  collaborators =
      delete_where (λ c. is_repository_of d.repositories org_id c.repository_id)
        d.access.collaborators;
  team_members = delete_where (λ m. is_team_of d.teams org_id m.team_id) d.access.team_members;
  team_repositories =
      delete_where
        (λ r.
          is_team_of d.teams org_id r.team_id
          || is_repository_of d.repositories org_id r.repository_id)
        d.access.team_repositories;
}

unfoldable pub remove_organization : (org_id : ℕ) → OrgStore → OrgStore
remove_organization org_id d = record {
  users = d.users;
  organizations = delete_where (λ o. o.id == org_id) d.organizations;
  teams = delete_where (λ t. t.organization_id == org_id) d.teams;
  repositories = delete_where (λ r. is_some_of r.owner_organization_id org_id) d.repositories;
  access = remove_grants org_id d;
}
