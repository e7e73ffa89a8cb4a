-- ===== src/Repos/Store.antt =====
-- backend/app/models/repo.py, the payloads of schemas/repo_schema.py, and the constraints on the
-- tables. The tables that decide on access are those of the permission resolver.
use text.Mathlib.Text.{◌==◌ as str_eq}
use pandahub.Prelude.{
  ℕ, Option, none, some, Bool, true, not, ◌&&◌, String, List, any, all, is_some, is_some_of, ◌==◌,
}
use pandahub.Table.{update_where, unique}
use pandahub.Enums.{RepositoryVisibility}
use pandahub.Permissions
use pandahub.Permissions.{RepositoryCollaborator, AccessTables}
use pandahub.Permissions.Access.{same_collaborator}

pub record Repository : Type 0 where
  pub id : ℕ
  pub owner_user_id : Option ℕ
  pub owner_organization_id : Option ℕ
  pub name : String
  pub description : Option String
  pub visibility : RepositoryVisibility
  pub default_branch : String
  pub is_fork : Bool
  pub forked_from_id : Option ℕ
  pub is_archived : Bool
  pub is_template : Bool
  pub disk_path : String
  pub star_count : ℕ
  pub fork_count : ℕ
  pub watcher_count : ℕ

pub record Branch : Type 0 where
  pub repository_id : ℕ
  pub name : String
  pub is_protected : Bool
  pub is_default : Bool
  pub last_commit_sha : Option String

pub record RepositoryStar : Type 0 where
  pub repository_id : ℕ
  pub user_id : ℕ

pub record RepositoryWatcher : Type 0 where
  pub repository_id : ℕ
  pub user_id : ℕ

pub record User : Type 0 where
  pub id : ℕ
  pub username : String
  pub is_active : Bool
  pub is_verified : Bool

pub record Organization : Type 0 where
  pub id : ℕ
  pub name : String

pub record RepositoryCreate : Type 0 where
  pub name : String
  pub description : Option String
  pub visibility : RepositoryVisibility
  pub default_branch : String
  pub auto_init : Bool
  pub owner_organization_id : Option ℕ

-- A field of model_dump(exclude_unset=True): not sent, sent as null, or sent with a value.
pub data Patch (A : Type 0) : Type 0 where
  unset null : Patch A
  given : A → Patch A

pub record RepositoryUpdate : Type 0 where
  pub description : Patch String
  pub visibility : Patch RepositoryVisibility
  pub default_branch : Patch String
  pub is_archived : Patch Bool
  pub is_template : Patch Bool

-- The tables that the service reads and writes.
pub record RepoStore : Type 0 where
  pub users : List User
  pub organizations : List Organization
  pub repositories : List Repository
  pub branches : List Branch
  pub stars : List RepositoryStar
  pub watchers : List RepositoryWatcher
  pub access : AccessTables

unfoldable pub same_id : Repository → Repository → Bool
same_id a b = a.id == b.id

-- uq_repositories_disk_path
unfoldable pub same_disk_path : Repository → Repository → Bool
same_disk_path a b = str_eq a.disk_path b.disk_path

-- ck_repo_single_owner
unfoldable pub is_single : (owner_user_id owner_organization_id : Option ℕ) → Bool
is_single none organization = is_some organization
is_single (some u) organization = not (is_some organization)

unfoldable pub has_single_owner : Repository → Bool
has_single_owner r = is_single r.owner_user_id r.owner_organization_id

-- uq_branch_per_repo, uq_repo_star and uq_repo_watcher
unfoldable pub same_branch : Branch → Branch → Bool
same_branch a b = a.repository_id == b.repository_id && str_eq a.name b.name

unfoldable pub same_star : RepositoryStar → RepositoryStar → Bool
same_star a b = a.repository_id == b.repository_id && a.user_id == b.user_id

unfoldable pub same_watcher : RepositoryWatcher → RepositoryWatcher → Bool
same_watcher a b = a.repository_id == b.repository_id && a.user_id == b.user_id

-- The foreign keys into `repositories`, `users` and `organizations`.
unfoldable pub has_repository : List Repository → ℕ → Bool
has_repository repositories id = any (λ r. r.id == id) repositories

unfoldable pub has_user : List User → ℕ → Bool
has_user users id = any (λ u. u.id == id) users

unfoldable pub has_organization : List Organization → ℕ → Bool
has_organization organizations id = any (λ o. o.id == id) organizations

-- A foreign key that may be NULL.
unfoldable pub refers : (ℕ → Bool) → Option ℕ → Bool
refers exists none = true
refers exists (some id) = exists id

unfoldable pub has_owner : List User → List Organization → Repository → Bool
has_owner users organizations r =
    refers (has_user users) r.owner_user_id
    && refers (has_organization organizations) r.owner_organization_id

unfoldable pub has_source : List Repository → Repository → Bool
has_source repositories r = refers (has_repository repositories) r.forked_from_id

unfoldable pub owners_valid : List User → List Organization → List Repository → Bool
owners_valid users organizations repositories = all (has_owner users organizations) repositories

unfoldable pub sources_valid : List Repository → Bool
sources_valid repositories = all (has_source repositories) repositories

unfoldable pub repositories_valid : List Repository → Bool
repositories_valid repositories =
    unique same_id repositories
    && (unique same_disk_path repositories && all has_single_owner repositories)

unfoldable pub branches_valid : List Repository → List Branch → Bool
branches_valid repositories branches =
    unique same_branch branches && all (λ b. has_repository repositories b.repository_id) branches

unfoldable pub stars_valid : List User → List Repository → List RepositoryStar → Bool
stars_valid users repositories stars =
    unique same_star stars
    && (all (λ s. has_repository repositories s.repository_id) stars
        && all (λ s. has_user users s.user_id) stars)

unfoldable pub watchers_valid : List User → List Repository → List RepositoryWatcher → Bool
watchers_valid users repositories watchers =
    unique same_watcher watchers
    && (all (λ w. has_repository repositories w.repository_id) watchers
        && all (λ w. has_user users w.user_id) watchers)

unfoldable pub collaborators_valid :
    List User → List Repository → List RepositoryCollaborator → Bool
collaborators_valid users repositories collaborators =
    unique same_collaborator collaborators
    && (all (λ c. has_repository repositories c.repository_id) collaborators
        && all (λ c. has_user users c.user_id) collaborators)

-- The constraints that the database checks when it commits.
unfoldable pub satisfies_constraints : RepoStore → Bool
satisfies_constraints d =
    repositories_valid d.repositories
    && (owners_valid d.users d.organizations d.repositories
        && (sources_valid d.repositories
            && (branches_valid d.repositories d.branches
                && (stars_valid d.users d.repositories d.stars
                    && (watchers_valid d.users d.repositories d.watchers
                        && collaborators_valid d.users d.repositories d.access.collaborators)))))

-- UPDATE repositories SET … WHERE id: what a flush of a changed object sends.
unfoldable pub change_repository : ℕ → (Repository → Repository) → RepoStore → RepoStore
change_repository id change d = record d {
  repositories = update_where (λ r. r.id == id) change d.repositories;
}

-- The columns of a repository name the owner, who is a user or else an organization.
unfoldable pub names_owner :
    (owner_user_id owner_organization_id user organization : Option ℕ) → Bool
names_owner (some u) o user organization = is_some_of user u
names_owner none (some o) user organization = is_some_of organization o
names_owner none none user organization = not (is_some organization)

unfoldable pub is_owned_by : (owner_user_id owner_organization_id : Option ℕ) → Repository → Bool
is_owned_by owner_user_id owner_organization_id r =
    names_owner owner_user_id owner_organization_id r.owner_user_id r.owner_organization_id

-- The columns of the row that the permission resolver reads.
unfoldable pub for_resolver : Repository → Permissions.Repository
for_resolver r = record {
  id = r.id;
  owner_user_id = r.owner_user_id;
  owner_organization_id = r.owner_organization_id;
  name = r.name;
  visibility = r.visibility;
  disk_path = r.disk_path;
}
