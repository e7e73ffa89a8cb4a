-- ===== src/Organizations/Members.antt =====
-- api/v1/orgs.py: what an owner's request does to the members of the organization and of teams.
use text.Mathlib.Text.{◌==◌ as str_eq}
use text.Mathlib.TextEquality.{eq_iff}
use pandahub.Prelude.{
  ℕ, ◌≡◌, refl, sym, ◌∙◌, some, Bool, true, false, ◌&&◌, [], ◌∷◌, arith, any, All, ◌==◌, ==_refl,
}
use pandahub.Exceptions.{Error.http, HttpStatus.forbidden, ok, err}
use pandahub.Session.{run}
use pandahub.Table.{select, scalar_one_or_none, unique, delete_where}
use pandahub.Table.Laws.{In, select_none, All-implies}
use pandahub.Table.Keys.{select_single}
use pandahub.Table.Deletes.{
  unique-delete_where, all-delete_where, any-delete_where_self, delete_where_gone,
}
use pandahub.Permissions.{Repository, OrganizationMember, TeamMember, TeamRepository}
use pandahub.Permissions.Access.{same_member}
use pandahub.Permissions.Granted.{IsGranted, by_team}
use pandahub.Repos.Store.{User}
use pandahub.Organizations.Store.{
  Organization, MemberAdd, OrgStore, same_name, same_team_member, has_organization, has_team,
  has_user, organizations_valid, members_valid, team_members_valid, satisfies_constraints,
}
use pandahub.Organizations.{
  or_404, get_org_or_404, is_owner_role, is_member_of, is_owner_of, require_org_owner,
  member_or_403, require_org_member, with_members, with_team_members, owned, add_member,
  remove_member, list_teams,
}
use pandahub.Organizations.Teams.{is_team_member, remove_team_member}
use pandahub.Organizations.Owners.{start}

abbrev pub IsValid : OrgStore → Type 0
IsValid d = satisfies_constraints d ≡ true

module _ (d : OrgStore) (v : IsValid d) where
  org_row :
      (org : Organization)
      → In org d.organizations
      → select (λ o. str_eq o.name org.name) d.organizations ≡ org ∷ []
  unfolding satisfies_constraints organizations_valid
  org_row org i =
      select_single same_name (λ o. str_eq o.name org.name) d.organizations org
        (λ a b h k.
          unfold same_name in
          (eq_iff a.name b.name).1
            ((eq_iff a.name org.name).0 h ∙ sym ((eq_iff b.name org.name).0 k)))
        (ground (arith, v)) ((eq_iff org.name org.name).1 refl) i

  members_unique : unique same_member d.access.organization_members ≡ true
  unfolding satisfies_constraints members_valid
  members_unique = ground (arith, v)

  owner_row :
      (org_id user_id : ℕ) (m : OrganizationMember)
      → In m d.access.organization_members
      → is_owner_of org_id user_id m ≡ true
      → select (is_owner_of org_id user_id) d.access.organization_members ≡ m ∷ []
  owner_row org_id user_id m i o =
      select_single same_member (is_owner_of org_id user_id) d.access.organization_members m
        (λ a b h k. unfold is_owner_of in unfold is_member_of in ground (arith, h, k))
        members_unique o i

  member_row :
      (org_id user_id : ℕ) (m : OrganizationMember)
      → In m d.access.organization_members
      → is_member_of org_id user_id m ≡ true
      → select (is_member_of org_id user_id) d.access.organization_members ≡ m ∷ []
  member_row org_id user_id m i o =
      select_single same_member (is_member_of org_id user_id) d.access.organization_members m
        (λ a b h k. unfold is_member_of in ground (arith, h, k)) members_unique o i

  team_member_row :
      (m : TeamMember)
      → In m d.access.team_members
      → select (is_team_member m.team_id m.user_id) d.access.team_members ≡ m ∷ []
  unfolding satisfies_constraints team_members_valid is_team_member
  team_member_row m i =
      select_single same_team_member (is_team_member m.team_id m.user_id) d.access.team_members m
        (λ a b h k. unfold same_team_member in ground (arith, h, k)) (ground (arith, v))
        (ground (arith, ==_refl m.team_id, ==_refl m.user_id)) i

  module _ (org : Organization) (current_user : User) (membership : OrganizationMember)
      (stored : In org d.organizations) (held : In membership d.access.organization_members)
      (owns : is_owner_of org.id current_user.id membership ≡ true) where
    owned_ok : owned org.name current_user (start d) ≡ (ok org, start d)
    unfolding owned get_org_or_404 or_404 require_org_owner scalar_one_or_none
    owned_ok = rw (org_row org stored, owner_row org.id current_user.id membership held owns) refl

    team_member_removed-valid :
        (p : TeamMember → Bool) → IsValid (with_team_members (delete_where p) d)
    unfolding satisfies_constraints team_members_valid with_team_members
    team_member_removed-valid p = ground (
      arith,
      v,
      unique-delete_where same_team_member p d.access.team_members,
      all-delete_where (λ m. has_team d.teams m.team_id && has_user d.users m.user_id) p
          d.access.team_members,
    )

    -- On valid rows, an owner of any organization removes any stored member of any team: the team
    -- need not belong to the organization of the path.
    pub remove_team_member_lem :
        (member : TeamMember)
        → In member d.access.team_members
        → run (remove_team_member org.name current_user member.team_id member.user_id) d ≡ (
          ok tt,
          with_team_members (delete_where (is_team_member member.team_id member.user_id)) d,
        )
    unfolding remove_team_member or_404 scalar_one_or_none
    remove_team_member_lem member i =
        rw
          (
            run,
            owned_ok,
            team_member_row member i,
            team_member_removed-valid (is_team_member member.team_id member.user_id),
          )
          refl

    module _ (user_id : ℕ) (target : OrganizationMember)
        (i : In target d.access.organization_members)
        (is_target : is_member_of org.id user_id target ≡ true) where
      -- The rows without the membership.
      abbrev pub removed : OrgStore
      removed = with_members (delete_where (is_member_of org.id user_id)) d

      member_removed-valid : IsValid removed
      unfolding satisfies_constraints members_valid with_members
      member_removed-valid = ground (
        arith,
        v,
        unique-delete_where same_member (is_member_of org.id user_id) d.access.organization_members,
        all-delete_where
            (λ m. has_organization d.organizations m.organization_id && has_user d.users m.user_id)
            (is_member_of org.id user_id) d.access.organization_members,
      )

      remove_member_ok : run (remove_member org.name current_user user_id) d ≡ (ok tt, removed)
      unfolding remove_member or_404 scalar_one_or_none
      remove_member_ok =
          rw (run, owned_ok, member_row org.id user_id target i is_target, member_removed-valid)
            refl

      no_member : any (is_member_of org.id user_id) removed.access.organization_members ≡ false
      unfolding with_members
      no_member = any-delete_where_self (is_member_of org.id user_id) d.access.organization_members

      refused :
          (caller : User)
          → caller.id ≡ user_id
          → run (list_teams org.name caller) removed ≡ (err (http forbidden), removed)
      unfolding list_teams get_org_or_404 or_404 require_org_member member_or_403 scalar_one_or_none
          with_members
      refused caller e =
          rw (org_row org stored)
            (rw e (rw (select_none (is_member_of org.id user_id) _ no_member) refl))

      -- On valid rows, an owner's removal of a member succeeds: the organization's teams are closed
      -- to the member from then on, but what a team of theirs grants them stays granted.
      pub remove_member_lem :
          (run (remove_member org.name current_user user_id) d ≡ (ok tt, removed))
          × ((caller : User)
              → caller.id ≡ user_id
              → run (list_teams org.name caller) removed ≡ (err (http forbidden), removed))
          × ((repo : Repository) (m : TeamMember) (t : TeamRepository)
              → In m d.access.team_members
              → In t d.access.team_repositories
              → m.user_id ≡ user_id
              → m.team_id ≡ t.team_id
              → t.repository_id ≡ repo.id
              → IsGranted removed.access (some user_id) repo t.permission)
      unfolding with_members
      remove_member_lem = (
        remove_member_ok,
        refused,
        λ repo m t j k same_user same_team same_repo.
            by_team user_id m t refl j k same_user same_team same_repo refl,
      )

      module _
          (last : All
            (λ m.
              (m.organization_id == org.id && is_owner_role m.role) ≡ true → m.user_id ≡ user_id)
            d.access.organization_members) where
        owner_is_user :
            (caller_id : ℕ) (m : OrganizationMember)
            → ((m.organization_id == org.id && is_owner_role m.role) ≡ true → m.user_id ≡ user_id)
            → is_owner_of org.id caller_id m ≡ true
            → is_member_of org.id user_id m ≡ true
        unfolding is_owner_of is_member_of
        owner_is_user caller_id m h o =
            let same : m.user_id ≡ user_id = h (ground (arith, o)) in
            rw same (ground (arith, o, ==_refl user_id))

        no_owner :
            (caller_id : ℕ)
            → any (is_owner_of org.id caller_id) removed.access.organization_members ≡ false
        unfolding with_members
        no_owner caller_id =
            delete_where_gone _ _ d.access.organization_members
              (All-implies _ _ d.access.organization_members (owner_is_user caller_id) last)

        -- On valid rows, nothing keeps the only owner of an organization in it: once they are
        -- removed, no caller can add a member to the organization any more.
        pub add_member-remove_member :
            (run (remove_member org.name current_user user_id) d ≡ (ok tt, removed))
            × ((caller : User) (payload : MemberAdd)
                → run (add_member org.name caller payload) removed
                  ≡ (err (http forbidden), removed))
        unfolding add_member owned get_org_or_404 or_404 require_org_owner scalar_one_or_none
            with_members
        add_member-remove_member = (
          remove_member_ok,
          λ caller payload.
              rw (org_row org stored)
                (rw (select_none (is_owner_of org.id caller.id) _ (no_owner caller.id)) refl),
        )
