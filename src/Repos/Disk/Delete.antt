-- ===== src/Repos/Disk/Delete.antt =====
-- repo_service.py: a deletion removes the repository and all that belongs to it.
use text.Mathlib.TextEquality.{eq_iff}
use text.Mathlib.Text.{◌==◌ as str_eq}
use pandahub.Prelude.{
  ℕ, ◌≡◌, refl, sym, ◌∙◌, Bool, inl, inr, Option, none, Option-cases, some, true, false, String,
  List, [], ◌∷◌, arith, any, all, is_some, is_some_of, if◌then◌else◌, ◌==◌, Bool-cases,
}
use pandahub.Exceptions.{ok}
use pandahub.Table.{update_where, delete_where}
use pandahub.Table.Keys.{all-cong}
use pandahub.Table.Deletes.{unique-delete_where, all-delete_where, any-delete_where_self}
use pandahub.Permissions.{RepositoryCollaborator}
use pandahub.Permissions.Access.{same_collaborator}
use pandahub.Repos.Store.{
  Repository, Branch, RepositoryStar, RepositoryWatcher, RepoStore, same_id, same_disk_path, refers,
  has_owner, has_source, owners_valid, sources_valid, has_single_owner, same_branch, same_star,
  same_watcher, has_repository, has_user, repositories_valid, branches_valid, stars_valid,
  watchers_valid, collaborators_valid, satisfies_constraints,
}
use pandahub.Repos.Valid.{same_name, IsValid, KeepsColumns, updated-IsValid, has_source-update}
use pandahub.Repos.Disk.{
  BareRepositories, Disk, forget, forget_source, remove_access, remove_repository, delete_rows, put,
  remove_directory, delete_repository,
}
use pandahub.Repos.Disk.Failure.{start}

forget_source-KeepsColumns : (id : ℕ) → KeepsColumns (forget_source id)
unfolding forget_source
forget_source-KeepsColumns id = record {
  id = λ r. refl;
  owner_user_id = λ r. refl;
  owner_organization_id = λ r. refl;
  name = λ r. refl;
  disk_path = λ r. refl;
}

-- A deletion by id leaves the others.
has_repository-delete :
    (rows : List Repository) (id other : ℕ)
    → (other == id) ≡ false
    → has_repository (delete_where (λ r. r.id == id) rows) other ≡ has_repository rows other
unfolding has_repository delete_where
has_repository-delete [] id other n = refl
has_repository-delete (r ∷ rs) id other n = ground (arith, n, has_repository-delete rs id other n)

-- Rows that refer to other repositories still do.
references-delete :
    {A : Type 0} (repository_id : A → ℕ) (rows : List Repository) (id : ℕ) (xs : List A)
    → all (λ x. has_repository rows (repository_id x)) xs ≡ true
    → all
        (λ x. has_repository (delete_where (λ r. r.id == id) rows) (repository_id x))
        (delete_where (λ x. repository_id x == id) xs)
      ≡ true
unfolding delete_where
references-delete repository_id rows id [] h = refl
references-delete repository_id rows id (x ∷ xs) h = elim (Bool-cases (repository_id x == id)) [
  | inl e ↦ rw e (references-delete repository_id rows id xs (ground arith))
  | inr e ↦ rw e (
      ground (
        arith,
        has_repository-delete rows id (repository_id x) e,
        references-delete repository_id rows id xs,
      ))
]

-- A fork whose source is not deleted still has it, and a fork of the deleted one has none.
source_kept :
    (rows : List Repository) (id : ℕ) (source : Option ℕ)
    → is_some_of source id ≡ false
    → refers (has_repository rows) source ≡ true
    → refers (has_repository (delete_where (λ r. r.id == id) rows)) source ≡ true
unfolding refers
source_kept rows id none n h = refl
source_kept rows id (some source) n h = ground (arith, n, h, has_repository-delete rows id source)

sources-delete :
    (rows : List Repository) (id : ℕ) (xs : List Repository)
    → any (λ r. is_some_of r.forked_from_id id) xs ≡ false
    → all (has_source rows) xs ≡ true
    → all (has_source (delete_where (λ r. r.id == id) rows)) (delete_where (λ r. r.id == id) xs)
      ≡ true
unfolding delete_where has_source
sources-delete rows id [] n h = refl
sources-delete rows id (x ∷ xs) n h =
    ground (arith, n, h, source_kept rows id x.forked_from_id, sources-delete rows id xs)

source_forgotten :
    (exists : ℕ → Bool) (id : ℕ) (source : Option ℕ)
    → refers exists source ≡ true
    → refers exists (forget id source) ≡ true
unfolding refers forget
source_forgotten exists id none h = refl
source_forgotten exists id (some source) h = ground arith

sources_forgotten :
    (rows : List Repository) (id : ℕ) (xs : List Repository)
    → all (has_source rows) xs ≡ true
    → all (has_source rows) (update_where (λ r. true) (forget_source id) xs) ≡ true
unfolding update_where forget_source has_source
sources_forgotten rows id [] h = refl
sources_forgotten rows id (x ∷ xs) h = ground (
  arith,
  h,
  source_forgotten (has_repository rows) id x.forked_from_id,
  sources_forgotten rows id xs,
)

forgets_one : (id : ℕ) (source : Option ℕ) → is_some_of (forget id source) id ≡ false
unfolding forget
forgets_one id none = refl
forgets_one id (some source) = ground arith

forgets_all :
    (id : ℕ) (xs : List Repository)
    → any (λ r. is_some_of r.forked_from_id id) (update_where (λ r. true) (forget_source id) xs)
      ≡ false
unfolding update_where forget_source
forgets_all id [] = refl
forgets_all id (x ∷ xs) = ground (arith, forgets_one id x.forked_from_id, forgets_all id xs)

-- The deletion proper, once the forks have forgotten their source.
abbrev without : ℕ → RepoStore → RepoStore
without id d = record d {
  repositories = delete_where (λ r. r.id == id) d.repositories;
  branches = delete_where (λ b. b.repository_id == id) d.branches;
  stars = delete_where (λ s. s.repository_id == id) d.stars;
  watchers = delete_where (λ w. w.repository_id == id) d.watchers;
  access = remove_access id d.access;
}

module _ (id : ℕ) (d : RepoStore) (v : IsValid d)
    (forgotten : any (λ r. is_some_of r.forked_from_id id) d.repositories ≡ false) where
  rows_valid : repositories_valid (without id d).repositories ≡ true
  unfolding repositories_valid satisfies_constraints
  rows_valid = ground (
    arith,
    v.constraints,
    unique-delete_where same_id (λ r. r.id == id) d.repositories,
    unique-delete_where same_disk_path (λ r. r.id == id) d.repositories,
    all-delete_where has_single_owner (λ r. r.id == id) d.repositories,
  )

  remaining_owners :
      owners_valid (without id d).users (without id d).organizations (without id d).repositories
      ≡ true
  unfolding owners_valid satisfies_constraints
  remaining_owners = ground (
    arith,
    v.constraints,
    all-delete_where (has_owner d.users d.organizations) (λ r. r.id == id) d.repositories,
  )

  remaining_sources : sources_valid (without id d).repositories ≡ true
  unfolding sources_valid satisfies_constraints
  remaining_sources =
      ground (arith, v.constraints, forgotten, sources-delete d.repositories id d.repositories)

  remaining_branches : branches_valid (without id d).repositories (without id d).branches ≡ true
  unfolding branches_valid satisfies_constraints
  remaining_branches = ground (
    arith,
    v.constraints,
    unique-delete_where same_branch (λ b. b.repository_id == id) d.branches,
    references-delete (λ (b : Branch). b.repository_id) d.repositories id d.branches,
  )

  remaining_stars :
      stars_valid (without id d).users (without id d).repositories (without id d).stars ≡ true
  unfolding stars_valid satisfies_constraints
  remaining_stars = ground (
    arith,
    v.constraints,
    unique-delete_where same_star (λ s. s.repository_id == id) d.stars,
    references-delete (λ (s : RepositoryStar). s.repository_id) d.repositories id d.stars,
    all-delete_where (λ s. has_user d.users s.user_id) (λ s. s.repository_id == id) d.stars,
  )

  remaining_watchers :
      watchers_valid (without id d).users (without id d).repositories (without id d).watchers ≡ true
  unfolding watchers_valid satisfies_constraints
  remaining_watchers = ground (
    arith,
    v.constraints,
    unique-delete_where same_watcher (λ w. w.repository_id == id) d.watchers,
    references-delete (λ (w : RepositoryWatcher). w.repository_id) d.repositories id d.watchers,
    all-delete_where (λ w. has_user d.users w.user_id) (λ w. w.repository_id == id) d.watchers,
  )

  remaining_collaborators :
      collaborators_valid
        (without id d).users
        (without id d).repositories
        (without id d).access.collaborators
      ≡ true
  unfolding collaborators_valid satisfies_constraints remove_access
  remaining_collaborators = ground (
    arith,
    v.constraints,
    unique-delete_where same_collaborator (λ c. c.repository_id == id) d.access.collaborators,
    references-delete (λ (c : RepositoryCollaborator). c.repository_id) d.repositories id
        d.access.collaborators,
    all-delete_where (λ c. has_user d.users c.user_id) (λ c. c.repository_id == id)
        d.access.collaborators,
  )

  without-IsValid : IsValid (without id d)
  unfolding satisfies_constraints
  without-IsValid = record {
    constraints = cc (
      rows_valid, remaining_owners, remaining_sources, remaining_branches, remaining_stars,
      remaining_watchers, remaining_collaborators,
    );
    names = unique-delete_where same_name (λ r. r.id == id) d.repositories v.names;
  }

sources_before : (d : RepoStore) → IsValid d → sources_valid d.repositories ≡ true
unfolding satisfies_constraints
sources_before d v = ground (arith, v.constraints)

sources_hold :
    (id : ℕ) (d : RepoStore)
    → IsValid d
    → sources_valid (update_where (λ r. true) (forget_source id) d.repositories) ≡ true
unfolding sources_valid
sources_hold id d v =
    all-cong _ _ (update_where (λ r. true) (forget_source id) d.repositories) (
      has_source-update (forget_source id) (forget_source-KeepsColumns id) (λ r. true)
        d.repositories)
    ∙ sources_forgotten d.repositories id d.repositories (sources_before d v)

pub remove_repository-IsValid :
    (id : ℕ) (d : RepoStore) → IsValid d → IsValid (remove_repository id d)
unfolding remove_repository
remove_repository-IsValid id d v =
    without-IsValid id _
      (updated-IsValid (forget_source id) (forget_source-KeepsColumns id) (λ r. true) d v
        (sources_hold id d v ∙ sym (sources_before d v)))
      (forgets_all id d.repositories)

-- Nothing refers to the id any more.
pub record IsGone (id : ℕ) (d : RepoStore) : Type 0 where
  pub repository : any (λ r. r.id == id) d.repositories ≡ false
  pub fork_source : any (λ r. is_some_of r.forked_from_id id) d.repositories ≡ false
  pub branches : any (λ b. b.repository_id == id) d.branches ≡ false
  pub stars : any (λ s. s.repository_id == id) d.stars ≡ false
  pub watchers : any (λ w. w.repository_id == id) d.watchers ≡ false
  pub collaborators : any (λ c. c.repository_id == id) d.access.collaborators ≡ false
  pub team_repositories : any (λ t. t.repository_id == id) d.access.team_repositories ≡ false

forgets :
    (id : ℕ) (rows : List Repository)
    → any
        (λ r. is_some_of r.forked_from_id id)
        (delete_where (λ r. r.id == id) (update_where (λ r. true) (forget_source id) rows))
      ≡ false
unfolding delete_where update_where forget_source
forgets id [] = refl
forgets id (r ∷ rs) = elim (Bool-cases (r.id == id)) [
  | inl e ↦ rw e (forgets id rs)
  | inr e ↦ rw e (ground (arith, forgets_one id r.forked_from_id, forgets id rs))
]

remove_repository-IsGone : (id : ℕ) (d : RepoStore) → IsGone id (remove_repository id d)
unfolding remove_repository remove_access
remove_repository-IsGone id d = record {
  repository = any-delete_where_self (λ r. r.id == id) _;
  fork_source = forgets id d.repositories;
  branches = any-delete_where_self (λ b. b.repository_id == id) d.branches;
  stars = any-delete_where_self (λ s. s.repository_id == id) d.stars;
  watchers = any-delete_where_self (λ w. w.repository_id == id) d.watchers;
  collaborators = any-delete_where_self (λ c. c.repository_id == id) d.access.collaborators;
  team_repositories = any-delete_where_self (λ t. t.repository_id == id) d.access.team_repositories;
}

module _ {R : Type 0} (git : BareRepositories R) (path : String) (disk : Disk R) where
  removed_here :
      remove_directory git path (ok tt) disk path
      ≡ (if is_some (disk path) then (git.rmtree (disk path)).1 else none)
  unfolding remove_directory put
  removed_here = elim (Option-cases (disk path)) [
    | inl n ↦ rw n n
    | inr (r, e) ↦ rw e (rw ((eq_iff path path).1 refl) refl)
  ]

  removed_other :
      (other : String)
      → str_eq other path ≡ false
      → remove_directory git path (ok tt) disk other ≡ disk other
  unfolding remove_directory put
  removed_other other n = elim (Bool-cases (is_some (disk path))) [
    | inl e ↦ rw e (rw n refl)
    | inr e ↦ rw e refl
  ]

-- On valid rows a deletion succeeds whatever the disk does: the rows stay valid and none refers to
-- the repository any more; a missing directory stays missing, and another one is what rmtree leaves;
-- no other directory changes.
pub delete_repository_lem :
    {R : Type 0} (git : BareRepositories R) (repo : Repository) (disk : Disk R) (d : RepoStore)
    → IsValid d
    → ((delete_repository git repo disk (start d)).0 ≡ (ok tt, start (remove_repository repo.id d)))
      × IsValid (remove_repository repo.id d)
      × IsGone repo.id (remove_repository repo.id d)
      × ((delete_repository git repo disk (start d)).1 repo.disk_path
          ≡ (if is_some (disk repo.disk_path) then (git.rmtree (disk repo.disk_path)).1 else none))
      × ((other : String)
          → str_eq other repo.disk_path ≡ false
          → (delete_repository git repo disk (start d)).1 other ≡ disk other)
unfolding delete_repository delete_rows
delete_repository_lem git repo disk d v =
    let valid = remove_repository-IsValid repo.id d v in
    (
      rw valid.constraints refl,
      valid,
      remove_repository-IsGone repo.id d,
      rw valid.constraints (removed_here git repo.disk_path disk),
      λ other n. rw valid.constraints (removed_other git repo.disk_path disk other n),
    )
