-- ===== src/Repos/Valid.antt =====
-- repo_service.py: what holds of the rows between requests.
-- The migrations dropped the unique indexes on owner and name, so that names are kept apart by the
-- service alone; the counters are the service's as well.
use text.Mathlib.Text.{◌==◌ as str_eq}
use pandahub.Prelude.{
  Option, none, some, ℕ, ◌≡◌, refl, ◌∙◌, Bool, true, ◌&&◌, List, All, all, length, ◌==◌, ==_refl,
}
use pandahub.Table.{select, unique, update_where}
use pandahub.Table.Laws.{In, In-any}
use pandahub.Table.Keys.{any-update_where, all-update_where, unique-update_where, all-cong}
use pandahub.Permissions.{RepositoryCollaborator}
use pandahub.Repos.Store.{
  User, Organization, refers, has_owner, has_source, owners_valid, sources_valid, Repository,
  Branch, RepositoryStar, RepositoryWatcher, RepoStore, same_id, same_disk_path, has_single_owner,
  has_repository, repositories_valid, branches_valid, stars_valid, watchers_valid,
  collaborators_valid, satisfies_constraints, change_repository, is_owned_by,
}

-- The later repository has the name and the owner of the earlier one.
abbrev pub same_name : Repository → Repository → Bool
same_name a b = str_eq a.name b.name && is_owned_by b.owner_user_id b.owner_organization_id a

-- The counters are the numbers of rows.
abbrev pub HasStarCount : RepoStore → Repository → Type 0
HasStarCount d r = r.star_count ≡ length (select (λ s. s.repository_id == r.id) d.stars)

abbrev pub HasWatcherCount : RepoStore → Repository → Type 0
HasWatcherCount d r = r.watcher_count ≡ length (select (λ w. w.repository_id == r.id) d.watchers)

-- The database's constraints, and no two repositories of an owner with the same name.
pub record IsValid (d : RepoStore) : Type 0 where
  pub constraints : satisfies_constraints d ≡ true
  pub names : unique same_name d.repositories ≡ true

pub record IsCounted (d : RepoStore) : Type 0 where
  pub stars : All (HasStarCount d) d.repositories
  pub watchers : All (HasWatcherCount d) d.repositories

pub has_repository-In :
    (repo : Repository) (rows : List Repository) → In repo rows → has_repository rows repo.id ≡ true
unfolding has_repository
has_repository-In repo rows i = In-any (λ r. r.id == repo.id) rows repo i (==_refl repo.id)

-- An update of a row that leaves alone what the constraints and the names read.
pub record KeepsColumns (f : Repository → Repository) : Type 0 where
  pub id : (r : Repository) → (f r).id ≡ r.id
  pub owner_user_id : (r : Repository) → (f r).owner_user_id ≡ r.owner_user_id
  pub owner_organization_id :
      (r : Repository) → (f r).owner_organization_id ≡ r.owner_organization_id
  pub name : (r : Repository) → (f r).name ≡ r.name
  pub disk_path : (r : Repository) → (f r).disk_path ≡ r.disk_path

module _ (f : Repository → Repository) (keeps : KeepsColumns f) (p : Repository → Bool) where
  open keeps use {
    id as same_i, owner_user_id as same_u, owner_organization_id as same_o, name as same_n,
    disk_path as same_d,
  }

  pub has_repository-update :
      (rows : List Repository) (id : ℕ)
      → has_repository (update_where p f rows) id ≡ has_repository rows id
  unfolding has_repository
  has_repository-update rows id = any-update_where (λ r. r.id == id) p f rows (λ x. rw same_i refl)

  repositories_valid-update :
      (rows : List Repository)
      → repositories_valid (update_where p f rows) ≡ repositories_valid rows
  unfolding repositories_valid same_id same_disk_path has_single_owner
  repositories_valid-update rows = cc (
    unique-update_where same_id p f rows (λ x y. rw same_i refl) (λ x y. rw same_i refl),
    unique-update_where same_disk_path p f rows (λ x y. rw same_d refl) (λ x y. rw same_d refl),
    all-update_where has_single_owner p f rows (λ x. rw (same_u, same_o) refl),
  )

  pub unique_names-update :
      (rows : List Repository) → unique same_name (update_where p f rows) ≡ unique same_name rows
  unfolding is_owned_by
  unique_names-update rows =
      unique-update_where same_name p f rows (λ x y. rw (same_n, same_u, same_o) refl)
        (λ x y. rw (same_n, same_u, same_o) refl)

refers-cong : (p q : ℕ → Bool) → ((n : ℕ) → p n ≡ q n) → (id : Option ℕ) → refers p id ≡ refers q id
unfolding refers
refers-cong p q same none = refl
refers-cong p q same (some n) = same n

-- A foreign key into the repositories does not see such an update.
module _ {A : Type 0} (f : Repository → Repository) (keeps : KeepsColumns f) (p : Repository → Bool)
    (repository_id : A → ℕ) where
  pub references-update :
      (rows : List Repository) (xs : List A)
      → all (λ x. has_repository (update_where p f rows) (repository_id x)) xs
        ≡ all (λ x. has_repository rows (repository_id x)) xs
  references-update rows xs =
      all-cong _ _ xs (λ x. has_repository-update f keeps p rows (repository_id x))

module _ (f : Repository → Repository) (keeps : KeepsColumns f) (p : Repository → Bool) where
  open keeps use {owner_user_id as same_u, owner_organization_id as same_o}

  -- The repositories that a fork may name as its source are the same.
  pub has_source-update :
      (rows : List Repository) (r : Repository)
      → has_source (update_where p f rows) r ≡ has_source rows r
  unfolding has_source
  has_source-update rows r = refers-cong _ _ (has_repository-update f keeps p rows) r.forked_from_id

  owners_valid-update :
      (users : List User) (organizations : List Organization) (rows : List Repository)
      → owners_valid users organizations (update_where p f rows)
        ≡ owners_valid users organizations rows
  unfolding owners_valid has_owner
  owners_valid-update users organizations rows =
      all-update_where (has_owner users organizations) p f rows
        (λ x. unfold has_owner in rw (same_u, same_o) refl)

  pub sources_valid-update :
      ((r : Repository) → (f r).forked_from_id ≡ r.forked_from_id)
      → (rows : List Repository) → sources_valid (update_where p f rows) ≡ sources_valid rows
  unfolding sources_valid
  sources_valid-update kept rows =
      all-cong _ _ (update_where p f rows) (has_source-update rows)
      ∙ all-update_where (has_source rows) p f rows (λ x. unfold has_source in rw kept refl)

  abbrev pub with_updated : RepoStore → RepoStore
  with_updated d = record d { repositories = update_where p f d.repositories }

  constraints-update :
      (d : RepoStore)
      → sources_valid (with_updated d).repositories ≡ sources_valid d.repositories
      → satisfies_constraints (with_updated d) ≡ satisfies_constraints d
  unfolding satisfies_constraints branches_valid stars_valid watchers_valid collaborators_valid
  constraints-update d sources = cc (
    sources,
    repositories_valid-update f keeps p d.repositories,
    owners_valid-update d.users d.organizations d.repositories,
    references-update f keeps p (λ (b : Branch). b.repository_id) d.repositories d.branches,
    references-update f keeps p (λ (s : RepositoryStar). s.repository_id) d.repositories d.stars,
    references-update f keeps p (λ (w : RepositoryWatcher). w.repository_id) d.repositories
        d.watchers,
    references-update f keeps p (λ (c : RepositoryCollaborator). c.repository_id) d.repositories
        d.access.collaborators,
  )

  pub updated-IsValid :
      (d : RepoStore)
      → IsValid d
      → sources_valid (with_updated d).repositories ≡ sources_valid d.repositories
      → IsValid (with_updated d)
  updated-IsValid d v sources = record {
    constraints = constraints-update d sources ∙ v.constraints;
    names = unique_names-update f keeps p d.repositories ∙ v.names;
  }

pub change-IsValid :
    (f : Repository → Repository) (keeps : KeepsColumns f)
    (kept : (r : Repository) → (f r).forked_from_id ≡ r.forked_from_id) (id : ℕ) (d : RepoStore)
    → IsValid d
    → IsValid (change_repository id f d)
unfolding change_repository
change-IsValid f keeps kept id d v =
    updated-IsValid f keeps (λ r. r.id == id) d v
      (sources_valid-update f keeps (λ r. r.id == id) kept d.repositories)
