-- ===== src/Repos/Disk/Create.antt =====
-- repo_service.py: what a creation that succeeds has done, and that the rows stay valid.
use mathlib.Core.Path.{subst}
use pandahub.Prelude.{
  ℕ, ◌≡◌, refl, ap, ◌∙◌, sym, inl, inr, Option, none, some, Bool, true, String, List, [], ◌∷◌, ◌++◌,
  arith, any, map, Option-cases,
}
use pandahub.Exceptions.{Result, ok, err, Result-cases}
use pandahub.Session.{Session, run}
use pandahub.Table.{select, scalar_one_or_none, unique}
use pandahub.Table.Laws.{In, select-In, scalar_some, scalar_none, map-In}
use pandahub.Table.Keys.{unique-snoc, In-snoc}
use pandahub.Permissions.{OrganizationMember, administers}
use pandahub.Repos.Store.{Repository, RepositoryCreate, RepoStore, satisfies_constraints}
use pandahub.Repos.{
  has_name, is_excluded, ensure_name_available, check_organization_role, owner_user,
  get_repo_by_owner_and_name,
}
use pandahub.Repos.Valid.{same_name, IsValid}
use pandahub.Repos.Lookup.{IsSlugOfOwner, get_repo_by_owner_and_name_lem}
use pandahub.Repos.Disk.{
  Outcome, BareRepositories, Disk, new_repository, add_repository, add_branch, prepare_repository,
  record_branch, finish_repository, init_in_root, init_and_finish, init_bare_repo,
  create_repository,
}
use pandahub.Repos.Disk.Failure.{start, prepare_repository_source}

-- The actor may create repositories for the organization, if there is one.
abbrev pub MayCreate : (actor_id : ℕ) → Option ℕ → RepoStore → Type 0
MayCreate actor_id none d = Unit {0}
MayCreate actor_id (some o) d =
    (m : OrganizationMember) × In m d.access.organization_members
    × (administers o actor_id m ≡ true)

module _ (root : String) (repo_id actor_id : ℕ) (payload : RepositoryCreate) where
  role_checked :
      (organization : Option ℕ) (s : Session RepoStore)
      → (check_organization_role actor_id organization s).0 ≡ ok tt
      → MayCreate actor_id organization s.current
  unfolding check_organization_role
  role_checked none s h = tt
  role_checked (some o) s h =
      let rows = select (administers o actor_id) s.current.access.organization_members in
      elim (Result-cases (scalar_one_or_none (map (λ m. m.role) rows))) [
        | inr (e, q) ↦ ground arith
        | inl (role, q) ↦ elim (Option-cases role) [
          | inl n ↦ ground arith
          | inr (x, k) ↦
              let (m, i, f) =
                map-In (λ m. m.role) rows (scalar_some (map (λ m. m.role) rows) (q ∙ ap ok k)) in
              let (t, j) = select-In (administers o actor_id) _ i in (m, j, t)
        ]
      ]

  prepared_rows :
      (s : Session RepoStore) (repo : Repository)
      → (prepare_repository root repo_id actor_id payload s).0 ≡ ok repo
      → ((prepare_repository root repo_id actor_id payload s).1.current
          ≡ add_repository (new_repository root repo_id actor_id payload) s.current)
        × (scalar_one_or_none (
              select
                (has_name payload.name
                  (owner_user actor_id payload.owner_organization_id)
                  payload.owner_organization_id
                  none)
                s.current.repositories)
            ≡ ok none)
        × ((check_organization_role actor_id payload.owner_organization_id s).0 ≡ ok tt)
  unfolding prepare_repository check_organization_role ensure_name_available
  prepared_rows s repo h = (ground arith, ground arith, ground arith)

no_exclusion :
    (new x : Repository)
    → same_name x new ≡ has_name new.name new.owner_user_id new.owner_organization_id none x
unfolding has_name is_excluded
no_exclusion new x = ground arith

-- The availability check is the one that keeps the names apart.
pub unique_names-snoc :
    (rows : List Repository) (new : Repository)
    → unique same_name rows ≡ true
    → scalar_one_or_none
        (select (has_name new.name new.owner_user_id new.owner_organization_id none) rows)
      ≡ ok none
    → unique same_name (rows ++ new ∷ []) ≡ true
unique_names-snoc rows new u free = unique-snoc same_name rows new u (
    as_test rows
    ∙ scalar_none (has_name new.name new.owner_user_id new.owner_organization_id none) rows free)
  where
    as_test :
        (xs : List Repository)
        → any (λ x. same_name x new) xs
          ≡ any (has_name new.name new.owner_user_id new.owner_organization_id none) xs
    as_test [] = refl
    as_test (x ∷ xs) = cc (no_exclusion new x, as_test xs)

module _ {R : Type 0} (git : BareRepositories R) where
  finished_rows :
      (auto_init : Bool) (made repo : Repository) (outcome : Outcome R) (s : Session RepoStore)
      → (finish_repository git auto_init made outcome s).0 ≡ ok repo
      → (repo ≡ made)
        × (outcome.0 ≡ ok tt)
        × ((finish_repository git auto_init made outcome s).1.committed.repositories
            ≡ s.current.repositories)
        × ((finish_repository git auto_init made outcome s).1.committed.users ≡ s.current.users)
        × ((finish_repository git auto_init made outcome s).1.committed.organizations
            ≡ s.current.organizations)
        × (satisfies_constraints (finish_repository git auto_init made outcome s).1.committed
            ≡ true)
  unfolding finish_repository record_branch add_branch
  finished_rows auto_init made repo outcome s h =
      (ground arith, ground arith, ground arith, ground arith, ground arith, ground arith)

  rooted_source :
      (auto_init : Bool) (made : Repository) (rooted : Result (Unit {0}) × Disk R)
      (s : Session RepoStore) (repo : Repository)
      → (init_in_root git auto_init made rooted s).0.0 ≡ ok repo
      → (repo ≡ made)
        × (rooted.0 ≡ ok tt)
        × ((init_bare_repo git made.id made.default_branch auto_init (rooted.1 made.disk_path)).0
            ≡ ok tt)
        × ((init_in_root git auto_init made rooted s).0.1.committed.repositories
            ≡ s.current.repositories)
        × ((init_in_root git auto_init made rooted s).0.1.committed.users ≡ s.current.users)
        × ((init_in_root git auto_init made rooted s).0.1.committed.organizations
            ≡ s.current.organizations)
        × (satisfies_constraints (init_in_root git auto_init made rooted s).0.1.committed ≡ true)
  unfolding init_in_root
  rooted_source auto_init made (err e, disk) s repo h = cc
  rooted_source auto_init made (ok done, disk) s repo h =
      let (same, directory, rows, users, organizations, valid) =
        finished_rows auto_init made repo _ s h in
      (same, refl, directory, rows, users, organizations, valid)

  made_source :
      (root : String) (auto_init : Bool) (disk : Disk R) (prepared : Result Repository)
      (s : Session RepoStore) (repo : Repository)
      → (init_and_finish git root auto_init disk prepared s).0.0 ≡ ok repo
      → (made : Repository) × (prepared ≡ ok made)
        × (repo ≡ made)
        × ((git.mkdir root disk).0 ≡ ok tt)
        × ((init_bare_repo git made.id made.default_branch auto_init
              ((git.mkdir root disk).1 made.disk_path)).0
            ≡ ok tt)
        × ((init_and_finish git root auto_init disk prepared s).0.1.committed.repositories
            ≡ s.current.repositories)
        × ((init_and_finish git root auto_init disk prepared s).0.1.committed.users
            ≡ s.current.users)
        × ((init_and_finish git root auto_init disk prepared s).0.1.committed.organizations
            ≡ s.current.organizations)
        × (satisfies_constraints (init_and_finish git root auto_init disk prepared s).0.1.committed
            ≡ true)
  unfolding init_and_finish
  made_source root auto_init disk (err e) s repo h = cc
  made_source root auto_init disk (ok made) s repo h =
      let (same, rooted, directory, rows, users, organizations, valid) =
        rooted_source auto_init made (git.mkdir root disk) s repo h in
      (made, refl, same, rooted, directory, rows, users, organizations, valid)

module _ {R : Type 0} (git : BareRepositories R) (root : String) (repo_id actor_id : ℕ)
    (payload : RepositoryCreate) (disk : Disk R) (d : RepoStore) (v : IsValid d)
    (repo : Repository) where
  -- What the database holds after the call.
  abbrev after_create : RepoStore
  after_create = (create_repository git root repo_id actor_id payload disk (start d)).0.1.committed

  -- If a creation on valid rows returns a repository, it is the one asked for, it is the only new row
  -- among the repositories, the rows are still valid, pygit2 has made its directory without an
  -- error, and the actor administers the organization if there is one.
  pub create_repository_ok :
      (create_repository git root repo_id actor_id payload disk (start d)).0.0 ≡ ok repo
      → (repo ≡ new_repository root repo_id actor_id payload)
        × (after_create.repositories ≡ d.repositories ++ repo ∷ [])
        × (after_create.users ≡ d.users)
        × (after_create.organizations ≡ d.organizations)
        × IsValid after_create
        × ((init_bare_repo git repo.id repo.default_branch payload.auto_init
              ((git.mkdir root disk).1 repo.disk_path)).0
            ≡ ok tt)
        × MayCreate actor_id payload.owner_organization_id d
  unfolding create_repository
  create_repository_ok h =
      let (made, p, q, rooted, directory, rows, users, organizations, valid) =
        made_source git root payload.auto_init disk
          (prepare_repository root repo_id actor_id payload (start d)).0
          (prepare_repository root repo_id actor_id payload (start d)).1 repo h in
      let (current, free, role) = prepared_rows root repo_id actor_id payload (start d) made p in
      let same = q ∙ prepare_repository_source root repo_id actor_id payload (start d) made p in
      let all_rows : after_create.repositories
          ≡ d.repositories ++ new_repository root repo_id actor_id payload ∷ [] =
        rows ∙ ap (λ x. x.repositories) current ∙ unfold add_repository in refl in
      (
        same,
        all_rows ∙ ap (λ r. d.repositories ++ r ∷ []) (sym same),
        users ∙ ap (λ x. x.users) current ∙ unfold add_repository in refl,
        organizations ∙ ap (λ x. x.organizations) current ∙ unfold add_repository in refl,
        record {
          constraints = valid;
          names =
              ap (unique same_name) all_rows
              ∙ unique_names-snoc d.repositories (new_repository root repo_id actor_id payload)
                  v.names (unfold new_repository in free);
        },
        ap
              (λ r.
                (init_bare_repo git r.id r.default_branch payload.auto_init
                  ((git.mkdir root disk).1 r.disk_path)).0)
              q
            ∙ directory,
        role_checked root repo_id actor_id payload payload.owner_organization_id (start d) role,
      )

  -- If a creation on valid rows returns a repository, it is found under the name that was asked
  -- for and the user name of its owner, or, where no user has that name, the name of the
  -- organization that owns it.
  pub get_repo_by_owner_and_name-create_repository :
      (owner_slug : String)
      → (create_repository git root repo_id actor_id payload disk (start d)).0.0 ≡ ok repo
      → IsSlugOfOwner owner_slug d.users d.organizations repo
      → run (get_repo_by_owner_and_name owner_slug payload.name) after_create
        ≡ (ok (some repo), after_create)
  get_repo_by_owner_and_name-create_repository owner_slug h named =
      let (same, rows, users, organizations, valid, directory, role) = create_repository_ok h in
      subst
        (λ name.
          run (get_repo_by_owner_and_name owner_slug name) after_create
          ≡ (ok (some repo), after_create))
        (ap (λ r. r.name) same ∙ unfold new_repository in refl)
        (get_repo_by_owner_and_name_lem after_create valid repo
          (subst (In repo) (sym rows) (In-snoc d.repositories repo)) owner_slug
          (subst (λ us. IsSlugOfOwner owner_slug us after_create.organizations repo) (sym users)
            (subst (λ os. IsSlugOfOwner owner_slug d.users os repo) (sym organizations) named)))
