-- ===== src/Organizations/Owners.antt =====
-- api/v1/orgs.py: who changes an organization through the routes.
use text.Mathlib.Text.{◌==◌ as str_eq}
use pandahub.Prelude.{ℕ, ◌≡◌, ◌≢◌, refl, ap, ◌∙◌, inl, inr, some, true, String, arith, Option-cases}
use pandahub.Exceptions.{ok, Result-cases}
use pandahub.Session.{Session, Exec, run, ◌>>=◌}
use pandahub.Table.{select, scalar_one_or_none}
use pandahub.Table.Laws.{In, select-In, scalar_some}
use pandahub.Permissions.{OrganizationMember}
use pandahub.Repos.Store.{User}
use pandahub.Organizations.Store.{Organization, OrgUpdate, MemberAdd, TeamCreate, OrgStore}
use pandahub.Organizations.{
  or_404, get_org_or_404, is_owner_of, require_org_owner, owned, update_org, delete_org, add_member,
  remove_member,
}
use pandahub.Organizations.Teams.{create_team, delete_team, add_team_member, remove_team_member}

abbrev pub start : OrgStore → Session OrgStore
start d = record { committed = d; current = d }

module _ (org_name : String) (current_user : User) where
  -- The caller is an owner of the organization of the path.
  pub record IsOwnerCall (d : OrgStore) : Type 0 where
    pub organization : Organization
    pub membership : OrganizationMember
    pub stored : In organization d.organizations
    pub of_path : str_eq organization.name org_name ≡ true
    pub held : In membership d.access.organization_members
    pub owns : is_owner_of organization.id current_user.id membership ≡ true

  get_org_or_404_keeps : (s : Session OrgStore) → (get_org_or_404 org_name s).1 ≡ s
  unfolding get_org_or_404 or_404
  get_org_or_404_keeps s =
      elim (Result-cases
        (scalar_one_or_none (select (λ o. str_eq o.name org_name) s.current.organizations))) [
          | inr (raised, e) ↦ rw e refl
          | inl (found, e) ↦ elim (Option-cases found) [
            | inl n ↦ ground arith
            | inr (o, k) ↦ ground arith
          ]
        ]

  get_org_or_404_source :
      (s : Session OrgStore) (org : Organization)
      → (get_org_or_404 org_name s).0 ≡ ok org
      → In org s.current.organizations × (str_eq org.name org_name ≡ true)
  unfolding get_org_or_404 or_404
  get_org_or_404_source s org h =
      elim (Result-cases
        (scalar_one_or_none (select (λ o. str_eq o.name org_name) s.current.organizations))) [
          | inr (raised, e) ↦ ground arith
          | inl (found, e) ↦ elim (Option-cases found) [
            | inl n ↦ ground arith
            | inr (o, k) ↦
                let same : o ≡ org = ground arith in
                let (t, i) =
                  select-In (λ (x : Organization). str_eq x.name org_name) s.current.organizations
                    (scalar_some _ (e ∙ ap ok (k ∙ ap some same))) in
                (i, t)
          ]
        ]

  require_org_owner_keeps :
      (org : Organization) (s : Session OrgStore) → (require_org_owner org current_user s).1 ≡ s
  unfolding require_org_owner
  require_org_owner_keeps org s = ground arith

  require_org_owner_source :
      (org : Organization) (s : Session OrgStore)
      → (require_org_owner org current_user s).0 ≡ ok tt
      → (m : OrganizationMember) × In m s.current.access.organization_members
        × (is_owner_of org.id current_user.id m ≡ true)
  unfolding require_org_owner
  require_org_owner_source org s h =
      elim (Result-cases (
        scalar_one_or_none
          (select (is_owner_of org.id current_user.id) s.current.access.organization_members))) [
            | inr (raised, e) ↦ ground arith
            | inl (found, e) ↦ elim (Option-cases found) [
              | inl n ↦ ground arith
              | inr (m, k) ↦
                  let (t, i) =
                    select-In (is_owner_of org.id current_user.id)
                      s.current.access.organization_members (scalar_some _ (e ∙ ap ok k)) in
                  (m, i, t)
            ]
          ]

  owned_keeps : (s : Session OrgStore) → (owned org_name current_user s).1 ≡ s
  unfolding owned
  owned_keeps s = elim (Result-cases (get_org_or_404 org_name s).0) [
    | inr (raised, e) ↦ ground (arith, get_org_or_404_keeps s)
    | inl (org, e) ↦ ground (arith, get_org_or_404_keeps s, require_org_owner_keeps org s)
  ]

  pub owner_call :
      (d : OrgStore) (org : Organization)
      → (owned org_name current_user (start d)).0 ≡ ok org
      → IsOwnerCall d
  unfolding owned
  owner_call d org h = elim (Result-cases (get_org_or_404 org_name (start d)).0) [
    | inr (raised, e) ↦ ground arith
    | inl (found, e) ↦ elim (Result-cases (require_org_owner found current_user (start d)).0) [
      | inr (raised, f) ↦ ground (arith, get_org_or_404_keeps (start d))
      | inl (u, f) ↦
          let (i, t) = get_org_or_404_source (start d) found e in
          let (m, held, owns) = require_org_owner_source found (start d) f in
          record {
            organization = found;
            membership = m;
            stored = i;
            of_path = t;
            held = held;
            owns = owns;
          }
    ]
  ]

  changed :
      {A : Type 0} (rest : Organization → Exec OrgStore A) (d : OrgStore)
      → (run (owned org_name current_user >>= rest) d).1 ≢ d
      → IsOwnerCall d
  changed rest d h = elim (Result-cases (owned org_name current_user (start d)).0) [
    | inl (org, e) ↦ owner_call d org e
    | inr (raised, e) ↦ absurd (h (rw (run, e) (ap (λ s. s.committed) (owned_keeps (start d)))))
  ]

  -- The routes that change an organization, its members or its teams leave every committed row as it
  -- was unless the caller is an owner of the stored organization of the path.
  pub changed_by_owner :
      (d : OrgStore)
      → ((payload : OrgUpdate)
          → (run (update_org org_name current_user payload) d).1 ≢ d
          → IsOwnerCall d)
        × ((run (delete_org org_name current_user) d).1 ≢ d → IsOwnerCall d)
        × ((payload : MemberAdd)
            → (run (add_member org_name current_user payload) d).1 ≢ d
            → IsOwnerCall d)
        × ((user_id : ℕ)
            → (run (remove_member org_name current_user user_id) d).1 ≢ d
            → IsOwnerCall d)
        × ((team_id : ℕ) (payload : TeamCreate)
            → (run (create_team org_name current_user team_id payload) d).1 ≢ d
            → IsOwnerCall d)
        × ((team_id : ℕ)
            → (run (delete_team org_name current_user team_id) d).1 ≢ d
            → IsOwnerCall d)
        × ((team_id : ℕ) (username : String)
            → (run (add_team_member org_name current_user team_id username) d).1 ≢ d
            → IsOwnerCall d)
        × ((team_id user_id : ℕ)
            → (run (remove_team_member org_name current_user team_id user_id) d).1 ≢ d
            → IsOwnerCall d)
  unfolding update_org delete_org add_member remove_member create_team delete_team add_team_member
      remove_team_member
  changed_by_owner d = (
    λ payload h. changed _ d h,
    λ h. changed _ d h,
    λ payload h. changed _ d h,
    λ user_id h. changed _ d h,
    λ team_id payload h. changed _ d h,
    λ team_id h. changed _ d h,
    λ team_id username h. changed _ d h,
    λ team_id user_id h. changed _ d h,
  )
