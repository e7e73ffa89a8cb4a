-- ===== src/Repos/Disk/CreateRuns.antt =====
-- repo_service.py: a creation succeeds where nothing stands in its way.
use text.Mathlib.Text.{◌==◌ as str_eq}
use pandahub.Prelude.{
  ℕ, ◌≡◌, refl, ap, ◌∙◌, inl, inr, Option, none, some, Bool, true, false, ◌&&◌, String, List, [],
  ◌∷◌, ◌++◌, arith, Bool-cases, any, all, ◌==◌,
}
use pandahub.Exceptions.{ok}
use pandahub.Table.{scalar_one_or_none, unique}
use pandahub.Table.Laws.{In, select_none}
use pandahub.Table.Keys.{unique-snoc, all-snoc, any-snoc, select_single}
use pandahub.Permissions.{OrganizationMember, RepositoryCollaborator, administers}
use pandahub.Permissions.Access.{same_member}
use pandahub.Repos.Store.{
  refers, has_user, has_organization, has_owner, has_source, owners_valid, sources_valid,
  Repository, Branch, RepositoryStar, RepositoryWatcher, RepositoryCreate, RepoStore, same_id,
  same_disk_path, has_single_owner, is_single, same_branch, has_repository, repositories_valid,
  branches_valid, stars_valid, watchers_valid, collaborators_valid, satisfies_constraints,
}
use pandahub.Repos.{has_name, ensure_name_available, check_organization_role, owner_user}
use pandahub.Repos.Valid.{IsValid}
use pandahub.Repos.Disk.{
  BareRepositories, Disk, build_disk_path, new_repository, add_repository, add_branch,
  prepare_repository, record_branch, finish_repository, init_in_root, init_and_finish,
  init_bare_repo, create_repository,
}
use pandahub.Repos.Disk.Failure.{start}

-- What refers to a repository still does when there is one more.
references-snoc :
    {A : Type 0} (repository_id : A → ℕ) (rows : List Repository) (new : Repository) (xs : List A)
    → all (λ x. has_repository rows (repository_id x)) xs ≡ true
    → all (λ x. has_repository (rows ++ new ∷ []) (repository_id x)) xs ≡ true
unfolding has_repository
references-snoc repository_id rows new [] h = refl
references-snoc repository_id rows new (x ∷ xs) h = ground (
  arith,
  any-snoc (λ r. r.id == repository_id x) rows new,
  references-snoc repository_id rows new xs,
)

-- So does a fork.
refers-snoc :
    (rows : List Repository) (new : Repository) (source : Option ℕ)
    → refers (has_repository rows) source ≡ true
    → refers (has_repository (rows ++ new ∷ [])) source ≡ true
unfolding refers has_repository
refers-snoc rows new none h = refl
refers-snoc rows new (some source) h = ground (arith, h, any-snoc (λ r. r.id == source) rows new)

source-snoc :
    (rows : List Repository) (new x : Repository)
    → has_source rows x ≡ true
    → has_source (rows ++ new ∷ []) x ≡ true
unfolding has_source
source-snoc rows new x h = refers-snoc rows new x.forked_from_id h

pub sources-snoc :
    (rows : List Repository) (new : Repository) (xs : List Repository)
    → all (has_source rows) xs ≡ true
    → all (has_source (rows ++ new ∷ [])) xs ≡ true
sources-snoc rows new [] h = refl
sources-snoc rows new (x ∷ xs) h =
    ground (arith, h, source-snoc rows new x, sources-snoc rows new xs)

-- No row refers to an id that is not there.
unreferenced :
    (rows : List Repository) (id : ℕ) (name : String) (branches : List Branch)
    → has_repository rows id ≡ false
    → all (λ b. has_repository rows b.repository_id) branches ≡ true
    → any (λ b. b.repository_id == id && str_eq b.name name) branches ≡ false
unreferenced rows id name [] n h = refl
unreferenced rows id name (b ∷ bs) n h = elim (Bool-cases (b.repository_id == id)) [
  | inr e ↦ ground (arith, unreferenced rows id name bs n)
  | inl e ↦
      let same : b.repository_id ≡ id = ground (arith, e) in
      ground (arith, ap (has_repository rows) same)
]

module _ (d : RepoStore) (v : IsValid d) (new : Repository)
    (fresh : has_repository d.repositories new.id ≡ false)
    (unused : any (λ r. str_eq r.disk_path new.disk_path) d.repositories ≡ false)
    (single : has_single_owner new ≡ true) (owned : has_owner d.users d.organizations new ≡ true)
    (sourced : has_source d.repositories new ≡ true) where
  rows_valid : repositories_valid (d.repositories ++ new ∷ []) ≡ true
  unfolding repositories_valid satisfies_constraints has_repository same_id same_disk_path
  rows_valid = ground (
    arith,
    v.constraints,
    fresh,
    unused,
    single,
    unique-snoc same_id d.repositories new,
    unique-snoc same_disk_path d.repositories new,
    all-snoc has_single_owner d.repositories new,
  )

  new_owners : owners_valid d.users d.organizations (d.repositories ++ new ∷ []) ≡ true
  unfolding owners_valid satisfies_constraints
  new_owners =
      ground (
        arith,
        v.constraints,
        owned,
        all-snoc (has_owner d.users d.organizations) d.repositories new,
      )

  new_sources : sources_valid (d.repositories ++ new ∷ []) ≡ true
  unfolding sources_valid satisfies_constraints
  new_sources = ground (
    arith,
    v.constraints,
    sourced,
    sources-snoc d.repositories new d.repositories,
    source-snoc d.repositories new new,
    all-snoc (has_source (d.repositories ++ new ∷ [])) d.repositories new,
  )

  pub added-valid : satisfies_constraints (add_repository new d) ≡ true
  unfolding satisfies_constraints branches_valid stars_valid watchers_valid collaborators_valid
      add_repository
  added-valid = ground (
    arith,
    v.constraints,
    rows_valid,
    new_owners,
    new_sources,
    references-snoc (λ (b : Branch). b.repository_id) d.repositories new d.branches,
    references-snoc (λ (s : RepositoryStar). s.repository_id) d.repositories new d.stars,
    references-snoc (λ (w : RepositoryWatcher). w.repository_id) d.repositories new d.watchers,
    references-snoc (λ (c : RepositoryCollaborator). c.repository_id) d.repositories new
        d.access.collaborators,
  )

  stored_now : (id : ℕ) → id ≡ new.id → has_repository (d.repositories ++ new ∷ []) id ≡ true
  unfolding has_repository
  stored_now id same = any-snoc (λ r. r.id == id) d.repositories new ∙ ground (arith, same)

  added_valid :
      satisfies_constraints (record d { repositories = d.repositories ++ new ∷ [] }) ≡ true
  unfolding add_repository
  added_valid = added-valid

  pub branched-valid :
      (branch : Branch)
      → branch.repository_id ≡ new.id
      → satisfies_constraints (add_branch branch (add_repository new d)) ≡ true
  unfolding satisfies_constraints branches_valid stars_valid watchers_valid collaborators_valid
      add_repository add_branch same_branch
  branched-valid branch same = ground (
    arith,
    v.constraints,
    added_valid,
    unique-snoc same_branch d.branches branch,
    unreferenced d.repositories branch.repository_id branch.name d.branches
        (ap (has_repository d.repositories) same ∙ fresh),
    all-snoc (λ b. has_repository (d.repositories ++ new ∷ []) b.repository_id) d.branches branch,
    stored_now branch.repository_id same,
  )

module _ (root : String) (repo_id actor_id : ℕ) (payload : RepositoryCreate) (d : RepoStore)
    (v : IsValid d) (members : unique same_member d.access.organization_members ≡ true) where
  -- Nothing stands in the way of the creation: the owner is stored; the actor administers the
  -- organization, if there is one; the owner has no repository of the name; and the new id and its
  -- path are unused.
  pub record IsClear : Type 0 where
    pub known :
        (refers (has_user d.users) (owner_user actor_id payload.owner_organization_id) ≡ true)
        × (refers (has_organization d.organizations) payload.owner_organization_id ≡ true)
    pub allowed :
        (o : ℕ)
        → payload.owner_organization_id ≡ some o
        → (m : OrganizationMember) × In m d.access.organization_members
          × (administers o actor_id m ≡ true)
    pub free :
        any
          (has_name payload.name
            (owner_user actor_id payload.owner_organization_id)
            payload.owner_organization_id
            none)
          d.repositories
        ≡ false
    pub fresh : has_repository d.repositories repo_id ≡ false
    pub unused : any (λ r. str_eq r.disk_path (build_disk_path root repo_id)) d.repositories ≡ false

  role_ok :
      (organization : Option ℕ)
      → ((o : ℕ)
          → organization ≡ some o
          → (m : OrganizationMember) × In m d.access.organization_members
            × (administers o actor_id m ≡ true))
      → check_organization_role actor_id organization (start d) ≡ (ok tt, start d)
  unfolding check_organization_role scalar_one_or_none
  role_ok none h = refl
  role_ok (some o) h =
      let (m, i, t) = h o refl in
      rw
        (select_single same_member (administers o actor_id) d.access.organization_members m
          (unfold administers in λ a b x y. ground arith) members t i)
        refl

  owner_single :
      (organization : Option ℕ) → is_single (owner_user actor_id organization) organization ≡ true
  unfolding is_single owner_user
  owner_single none = refl
  owner_single (some o) = refl

  owner_known :
      IsClear
      → has_owner d.users d.organizations (new_repository root repo_id actor_id payload) ≡ true
  unfolding has_owner new_repository
  owner_known c = ground (arith, c.known.0, c.known.1)

  no_source : has_source d.repositories (new_repository root repo_id actor_id payload) ≡ true
  unfolding has_source refers new_repository
  no_source = refl

  made_valid :
      IsClear
      → satisfies_constraints (add_repository (new_repository root repo_id actor_id payload) d)
        ≡ true
  made_valid c =
      added-valid d v (new_repository root repo_id actor_id payload)
        (unfold new_repository in c.fresh) (unfold new_repository in c.unused)
        (unfold new_repository has_single_owner in owner_single payload.owner_organization_id)
        (owner_known c) no_source

  prepared :
      IsClear
      → prepare_repository root repo_id actor_id payload (start d) ≡ (
        ok (new_repository root repo_id actor_id payload),
        record {
          committed = d;
          current = add_repository (new_repository root repo_id actor_id payload) d;
        },
      )
  unfolding prepare_repository ensure_name_available scalar_one_or_none
  prepared c =
      rw
        (
          role_ok payload.owner_organization_id c.allowed,
          select_none _ d.repositories c.free,
          made_valid c,
        )
        refl

  module _ {R : Type 0} (git : BareRepositories R) (disk : Disk R) where
    finished :
        (auto_init : Bool) (directory : Option R) (sha : String)
        → IsClear
        → git.head_target directory ≡ ok sha
        → (finish_repository git auto_init
            (new_repository root repo_id actor_id payload)
            (ok tt, directory)
            (record {
              committed = d;
              current = add_repository (new_repository root repo_id actor_id payload) d;
            })).0
          ≡ ok (new_repository root repo_id actor_id payload)
    unfolding finish_repository record_branch
    finished false directory sha c h = rw (made_valid c) refl
    finished true directory sha c h =
        rw
          (
            h,
            branched-valid d v (new_repository root repo_id actor_id payload)
                (unfold new_repository in c.fresh) (unfold new_repository in c.unused)
                (unfold new_repository has_single_owner in
                  owner_single payload.owner_organization_id)
                (owner_known c) no_source
                (record {
                  repository_id = (new_repository root repo_id actor_id payload).id;
                  name = (new_repository root repo_id actor_id payload).default_branch;
                  is_protected = false;
                  is_default = true;
                  last_commit_sha = some sha;
                })
                refl,
          )
          refl

    -- On valid rows and memberships, a creation returns the new repository if its owner is stored,
    -- the actor may create it, its name, id and path are unused, the root can be made, pygit2 makes
    -- the directory without an error and its HEAD can be read.
    pub create_repository_runs :
        (rooted : Disk R) (directory : Option R) (sha : String)
        → IsClear
        → git.mkdir root disk ≡ (ok tt, rooted)
        → init_bare_repo git repo_id payload.default_branch payload.auto_init
            (rooted (build_disk_path root repo_id))
          ≡ (ok tt, directory)
        → git.head_target directory ≡ ok sha
        → (create_repository git root repo_id actor_id payload disk (start d)).0.0
          ≡ ok (new_repository root repo_id actor_id payload)
    unfolding create_repository init_and_finish init_in_root
    create_repository_runs rooted directory sha c root_made made h =
        let new = new_repository root repo_id actor_id payload in
        let made_here : init_bare_repo git new.id new.default_branch payload.auto_init
              (rooted new.disk_path)
            ≡ (ok tt, directory) =
          unfold new_repository in made in
        rw (prepared c, root_made, made_here) (finished payload.auto_init directory sha c h)
