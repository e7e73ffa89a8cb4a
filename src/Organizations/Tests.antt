-- ===== src/Organizations/Tests.antt =====
-- Two organizations with a team, and the theorems on them.
use pandahub.Prelude.{
  ℕ, ◌≡◌, ◌≢◌, refl, inl, inr, none, some, true, ◌&&◌, String, [], ◌∷◌, All, ◌==◌, arith,
}
use pandahub.Exceptions.{Error.http, HttpStatus.forbidden, ok, err}
use pandahub.Session.{run}
use pandahub.Table.{unique, delete_where}
use pandahub.Table.Laws.{In}
use pandahub.Enums.{private, write, owner}
use pandahub.Permissions.{Repository, OrganizationMember, TeamMember, TeamRepository}
use pandahub.Permissions.Granted.{IsGranted}
use pandahub.Repos.Store.{User}
use pandahub.Organizations.Store.{
  Organization, Team, OrgUpdate, MemberAdd, TeamCreate, OrgStore, same_id, same_name,
  same_team_name, same_team_member, has_organization, has_team, has_user, organizations_valid,
  members_valid, teams_valid, team_members_valid, satisfies_constraints,
}
use pandahub.Organizations.{
  is_owner_role, is_member_of, is_owner_of, with_team_members, update_org, delete_org, add_member,
  remove_member, list_teams,
}
use pandahub.Organizations.Teams.{
  is_team_member, create_team, delete_team, add_team_member, remove_team_member,
}
use pandahub.Organizations.Owners.{IsOwnerCall, changed_by_owner}
use pandahub.Organizations.Members.{
  IsValid, removed, remove_team_member_lem, remove_member_lem, add_member-remove_member,
}

abbrev ann : User
ann = record { id = 20; username = "ann"; is_active = true; is_verified = true }

abbrev bob : User
bob = record { id = 21; username = "bob"; is_active = true; is_verified = true }

abbrev organization : (id : ℕ) → (name : String) → (created_by : ℕ) → Organization
organization id name created_by = record {
  id = id;
  name = name;
  display_name = name;
  description = none;
  avatar_url = none;
  website_url = none;
  created_by = some created_by;
}

abbrev acme : Organization
acme = organization 30 "acme" 20

abbrev umbrella : Organization
umbrella = organization 31 "umbrella" 21

abbrev backend : Team
backend = record { id = 40; organization_id = 31; name = "backend"; description = none }

abbrev ann_owns : OrganizationMember
ann_owns = record { organization_id = 30; user_id = 20; role = owner }

abbrev bob_owns : OrganizationMember
bob_owns = record { organization_id = 31; user_id = 21; role = owner }

abbrev bob_in_backend : TeamMember
bob_in_backend = record { team_id = 40; user_id = 21 }

abbrev backend_writes : TeamRepository
backend_writes = record { team_id = 40; repository_id = 7; permission = write }

abbrev engine : Repository
engine = record {
  id = 7;
  owner_user_id = none;
  owner_organization_id = some 31;
  name = "engine";
  visibility = private;
  disk_path = "/git/7.git";
}

abbrev store : OrgStore
store = record {
  users = ann ∷ bob ∷ [];
  organizations = acme ∷ umbrella ∷ [];
  teams = backend ∷ [];
  repositories = engine ∷ [];
  access = record {
    organization_members = ann_owns ∷ bob_owns ∷ [];
    collaborators = [];
    team_members = bob_in_backend ∷ [];
    team_repositories = backend_writes ∷ [];
  };
}

store-IsValid : IsValid store
unfolding satisfies_constraints organizations_valid members_valid teams_valid team_members_valid
    same_id same_name same_team_name same_team_member has_organization has_team has_user unique
store-IsValid = refl

owns : (is_owner_of 30 20 ann_owns ≡ true) × (is_owner_of 31 21 bob_owns ≡ true)
unfolding is_owner_of is_member_of is_owner_role
owns = (refl, refl)

is_bob : is_member_of 31 21 bob_owns ≡ true
unfolding is_member_of
is_bob = refl

-- Bob is the only owner of his organization.
only_bob :
    All
      (λ m. (m.organization_id == 31 && is_owner_role m.role) ≡ true → m.user_id ≡ 21)
      store.access.organization_members
unfolding is_owner_role
only_bob = (λ h. ground arith, (λ h. refl, tt))

changed_by_owner_example :
    ((payload : OrgUpdate)
      → (run (update_org "acme" ann payload) store).1 ≢ store
      → IsOwnerCall "acme" ann store)
    × ((run (delete_org "acme" ann) store).1 ≢ store → IsOwnerCall "acme" ann store)
    × ((payload : MemberAdd)
        → (run (add_member "acme" ann payload) store).1 ≢ store
        → IsOwnerCall "acme" ann store)
    × ((user_id : ℕ)
        → (run (remove_member "acme" ann user_id) store).1 ≢ store
        → IsOwnerCall "acme" ann store)
    × ((team_id : ℕ) (payload : TeamCreate)
        → (run (create_team "acme" ann team_id payload) store).1 ≢ store
        → IsOwnerCall "acme" ann store)
    × ((team_id : ℕ)
        → (run (delete_team "acme" ann team_id) store).1 ≢ store
        → IsOwnerCall "acme" ann store)
    × ((team_id : ℕ) (username : String)
        → (run (add_team_member "acme" ann team_id username) store).1 ≢ store
        → IsOwnerCall "acme" ann store)
    × ((team_id user_id : ℕ)
        → (run (remove_team_member "acme" ann team_id user_id) store).1 ≢ store
        → IsOwnerCall "acme" ann store)
changed_by_owner_example = changed_by_owner "acme" ann store

-- Ann owns acme only, and takes Bob out of a team of umbrella.
remove_team_member_lem_example :
    run (remove_team_member "acme" ann 40 21) store
    ≡ (ok tt, with_team_members (delete_where (is_team_member 40 21)) store)
remove_team_member_lem_example =
    remove_team_member_lem store store-IsValid acme ann ann_owns (inl refl) (inl refl) owns.0
      bob_in_backend (inl refl)

abbrev without_bob : OrgStore
without_bob =
    removed store store-IsValid umbrella bob bob_owns (inr (inl refl)) (inr (inl refl)) owns.1 21
      bob_owns (inr (inl refl)) is_bob

remove_member_lem_example :
    (run (remove_member "umbrella" bob 21) store ≡ (ok tt, without_bob))
    × ((caller : User)
        → caller.id ≡ 21
        → run (list_teams "umbrella" caller) without_bob ≡ (err (http forbidden), without_bob))
    × ((repo : Repository) (m : TeamMember) (t : TeamRepository)
        → In m store.access.team_members
        → In t store.access.team_repositories
        → m.user_id ≡ 21
        → m.team_id ≡ t.team_id
        → t.repository_id ≡ repo.id
        → IsGranted without_bob.access (some 21) repo t.permission)
remove_member_lem_example =
    remove_member_lem store store-IsValid umbrella bob bob_owns (inr (inl refl)) (inr (inl refl))
      owns.1 21 bob_owns (inr (inl refl)) is_bob

add_member-remove_member_example :
    (run (remove_member "umbrella" bob 21) store ≡ (ok tt, without_bob))
    × ((caller : User) (payload : MemberAdd)
        → run (add_member "umbrella" caller payload) without_bob
          ≡ (err (http forbidden), without_bob))
add_member-remove_member_example =
    add_member-remove_member store store-IsValid umbrella bob bob_owns (inr (inl refl))
      (inr (inl refl)) owns.1 21 bob_owns (inr (inl refl)) is_bob only_bob
