-- ===== src/Organizations/Teams.antt =====
-- backend/app/api/v1/orgs.py: the routes that change teams. A team member's role decides nothing in
-- the code and is left out.
use text.Mathlib.Text.{◌==◌ as str_eq}
use pandahub.Prelude.{ℕ, Bool, ◌&&◌, String, [], ◌∷◌, ◌++◌, is_some, ◌==◌}
use pandahub.Exceptions.{Error.http, HttpStatus.taken}
use pandahub.Session.{Exec, pure, lift, query, or_raise, modify, commit, ◌>>=◌, ◌>>◌}
use pandahub.Table.{select, scalar_one_or_none, delete_where}
use pandahub.Permissions.{TeamMember}
use pandahub.Repos.Store.{User}
use pandahub.Organizations.Store.{Team, TeamCreate, OrgStore, satisfies_constraints, remove_team}
use pandahub.Organizations.{or_404, user_or_404, with_team_members, owned}

unfoldable pub new_team : (team_id org_id : ℕ) → TeamCreate → Team
new_team team_id org_id payload = record {
  id = team_id;
  organization_id = org_id;
  name = payload.name;
  description = payload.description;
}

unfoldable pub add_team : Team → OrgStore → OrgStore
add_team team d = record d { teams = d.teams ++ team ∷ [] }

unfoldable pub is_team : (org_id team_id : ℕ) → Team → Bool
is_team org_id team_id t = t.id == team_id && t.organization_id == org_id

unfoldable pub is_team_member : (team_id user_id : ℕ) → TeamMember → Bool
is_team_member team_id user_id m = m.team_id == team_id && m.user_id == user_id

unfoldable pub team_or_404 : (org_id team_id : ℕ) → Exec OrgStore Team
team_or_404 org_id team_id = do
  rows ← query (λ d. select (is_team org_id team_id) d.teams)
  found ← lift (scalar_one_or_none rows)
  or_404 found

module _ (org_name : String) (current_user : User) where
  unfoldable pub create_team : (team_id : ℕ) → TeamCreate → Exec OrgStore Team
  create_team team_id payload = do
    org ← owned org_name current_user
    rows ←
        query (λ d. select (λ t. t.organization_id == org.id && str_eq t.name payload.name) d.teams)
    existing ← lift (scalar_one_or_none rows)
    or_raise (is_some existing) (http taken)
    modify (add_team (new_team team_id org.id payload))
    commit satisfies_constraints
    pure (new_team team_id org.id payload)

  unfoldable pub delete_team : (team_id : ℕ) → Exec OrgStore (Unit {0})
  delete_team team_id = do
    org ← owned org_name current_user
    team ← team_or_404 org.id team_id
    modify (remove_team team.id)
    commit satisfies_constraints

  unfoldable pub add_team_member : (team_id : ℕ) → (username : String) → Exec OrgStore User
  add_team_member team_id username = do
    org ← owned org_name current_user
    team_or_404 org.id team_id
    target ← user_or_404 username
    rows ← query (λ d. select (is_team_member team_id target.id) d.access.team_members)
    existing ← lift (scalar_one_or_none rows)
    or_raise (is_some existing) (http taken)
    modify (with_team_members (λ ms. ms ++ record { team_id = team_id; user_id = target.id } ∷ []))
    commit satisfies_constraints
    pure target

  -- The team is not looked up: any team of any organization will do.
  unfoldable pub remove_team_member : (team_id user_id : ℕ) → Exec OrgStore (Unit {0})
  remove_team_member team_id user_id = do
    owned org_name current_user
    rows ← query (λ d. select (is_team_member team_id user_id) d.access.team_members)
    found ← lift (scalar_one_or_none rows)
    or_404 found
    modify (with_team_members (delete_where (is_team_member team_id user_id)))
    commit satisfies_constraints
