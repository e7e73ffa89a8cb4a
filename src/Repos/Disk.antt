-- ===== src/Repos/Disk.antt =====
-- backend/app/services/repo_service.py: create, delete and fork, which touch the database and the
-- disk. What pygit2, pathlib and shutil do to the disk is the parameter BareRepositories.
pub mod Failure
pub mod Create
pub mod CreateRuns
pub mod Fork
pub mod ForkRuns
pub mod Delete
use text.Mathlib.Text.{◌==◌ as str_eq}
use pandahub.Prelude.{
  ℕ, suc, Option, none, some, Bool, true, false, String, List, [], ◌∷◌, ◌++◌, str, concat, is_some,
  ◌==◌, if◌then◌else◌,
}
use pandahub.Exceptions.{Error.http, HttpStatus.internal_error, Result, ok, err}
use pandahub.Session.{
  Session, Exec, pure, raise, lift, modify, flush, commit, rollback, ◌>>=◌, ◌>>◌,
}
use pandahub.Table.{delete_where, update_where}
use pandahub.Enums.{private}
use pandahub.Permissions.{AccessTables}
use pandahub.Repos.Store.{
  Repository, Branch, RepositoryCreate, RepoStore, satisfies_constraints, change_repository,
}
use pandahub.Repos.{ensure_name_available, check_organization_role, owner_user}

-- A call on a directory: its outcome, and what is under the path afterwards, also when it fails.
abbrev pub Outcome : Type 0 → Type 0
Outcome R = Result (Unit {0}) × Option R

-- The calls of pygit2, pathlib and shutil: on the whole disk, or on the directory of a bare
-- repository. A call may raise any error.
pub record BareRepositories (R : Type 0) : Type 0 where
  -- Path.mkdir(parents=True, exist_ok=True): it may also change the paths above its own.
  pub mkdir : (path : String) → (String → Option R) → Result (Unit {0}) × (String → Option R)
  pub init_repository : Option R → Outcome R
  pub set_head : (ref : String) → Option R → Outcome R
  pub create_commit : (ref readme : String) → Option R → Outcome R
  pub head_target : Option R → Result String
  pub clone_repository : (source dest : Option R) → Outcome R
  pub rmtree : Option R → Outcome R

-- What is under each path.
abbrev pub Disk : Type 0 → Type 0
Disk R = String → Option R

-- f"{root}/{repo_id}.git"
unfoldable pub build_disk_path : (root : String) → (repo_id : ℕ) → String
build_disk_path root repo_id = concat root (concat "/" (concat (str repo_id) ".git"))

-- The file name without its suffix is the id.
unfoldable pub readme_content : (repo_id : ℕ) → String
readme_content repo_id =
    concat "# " (concat (str repo_id) "\n\nThis repository was automatically initialized.")

unfoldable pub new_repository :
    (root : String) → (repo_id actor_id : ℕ) → RepositoryCreate → Repository
new_repository root repo_id actor_id payload = record {
  id = repo_id;
  owner_user_id = owner_user actor_id payload.owner_organization_id;
  owner_organization_id = payload.owner_organization_id;
  name = payload.name;
  description = payload.description;
  visibility = payload.visibility;
  default_branch = payload.default_branch;
  is_fork = false;
  forked_from_id = none;
  is_archived = false;
  is_template = false;
  disk_path = build_disk_path root repo_id;
  star_count = 0;
  fork_count = 0;
  watcher_count = 0;
}

unfoldable pub add_repository : Repository → RepoStore → RepoStore
add_repository repo d = record d { repositories = d.repositories ++ repo ∷ [] }

unfoldable pub add_branch : Branch → RepoStore → RepoStore
add_branch branch d = record d { branches = d.branches ++ branch ∷ [] }

-- Up to the flush, before anything is on the disk.
unfoldable pub prepare_repository :
    (root : String) → (repo_id actor_id : ℕ) → RepositoryCreate → Exec RepoStore Repository
prepare_repository root repo_id actor_id payload = do
  check_organization_role actor_id payload.owner_organization_id
  ensure_name_available payload.name (owner_user actor_id payload.owner_organization_id)
      payload.owner_organization_id none
  modify (add_repository (new_repository root repo_id actor_id payload))
  flush satisfies_constraints
  pure (new_repository root repo_id actor_id payload)

unfoldable pub new_fork :
    (root : String) → (repo_id actor_id : ℕ) → (source_repo : Repository) → Option ℕ → Repository
new_fork root repo_id actor_id source_repo new_owner_org_id = record {
  id = repo_id;
  owner_user_id = owner_user actor_id new_owner_org_id;
  owner_organization_id = new_owner_org_id;
  name = source_repo.name;
  description = source_repo.description;
  visibility = private;
  default_branch = source_repo.default_branch;
  is_fork = true;
  forked_from_id = some source_repo.id;
  is_archived = false;
  is_template = false;
  disk_path = build_disk_path root repo_id;
  star_count = 0;
  fork_count = 0;
  watcher_count = 0;
}

unfoldable pub set_fork_count : ℕ → Repository → Repository
set_fork_count count r = record r { fork_count = count }

unfoldable pub prepare_fork :
    (root : String)
    → (repo_id actor_id : ℕ) → (source_repo : Repository) → Option ℕ
    → Exec RepoStore Repository
prepare_fork root repo_id actor_id source_repo new_owner_org_id = do
  ensure_name_available source_repo.name (owner_user actor_id new_owner_org_id) new_owner_org_id
      none
  modify (add_repository (new_fork root repo_id actor_id source_repo new_owner_org_id))
  modify (change_repository source_repo.id (set_fork_count (suc source_repo.fork_count)))
  flush satisfies_constraints
  pure (new_fork root repo_id actor_id source_repo new_owner_org_id)

-- The clone decides whether the fork is committed.
unfoldable pub finish_fork : Repository → Result (Unit {0}) → Exec RepoStore Repository
finish_fork forked (err e) = rollback >> raise e
finish_fork forked (ok done) = do commit satisfies_constraints; pure forked

-- The rows that the database deletes with a repository: the ORM's cascade and the foreign keys. The
-- forks of it lose their `forked_from_id`.
unfoldable pub forget : ℕ → Option ℕ → Option ℕ
forget id none = none
forget id (some source) = if source == id then none else some source

unfoldable pub forget_source : ℕ → Repository → Repository
forget_source id r = record r { forked_from_id = forget id r.forked_from_id }

unfoldable pub remove_access : ℕ → AccessTables → AccessTables
remove_access id t = record t {
  collaborators = delete_where (λ c. c.repository_id == id) t.collaborators;
  team_repositories = delete_where (λ r. r.repository_id == id) t.team_repositories;
}

unfoldable pub remove_repository : ℕ → RepoStore → RepoStore
remove_repository id d = record d {
  repositories =
      delete_where (λ r. r.id == id) (update_where (λ r. true) (forget_source id) d.repositories);
  branches = delete_where (λ b. b.repository_id == id) d.branches;
  stars = delete_where (λ s. s.repository_id == id) d.stars;
  watchers = delete_where (λ w. w.repository_id == id) d.watchers;
  access = remove_access id d.access;
}

unfoldable pub delete_rows : Repository → Exec RepoStore (Unit {0})
delete_rows repo = do modify (remove_repository repo.id); commit satisfies_constraints

module _ {R : Type 0} where
  unfoldable pub put : String → Option R → Disk R → Disk R
  put path directory disk other = if str_eq other path then directory else disk other

  -- The next call on the directory, unless the one before it failed.
  unfoldable pub and_then : Outcome R → (Option R → Outcome R) → Outcome R
  and_then (ok done, directory) next = next directory
  and_then (err e, directory) next = (err e, directory)

module _ {R : Type 0} (git : BareRepositories R) where
  unfoldable pub initial_commit :
      (auto_init : Bool) → (ref : String) → (repo_id : ℕ) → Option R → Outcome R
  initial_commit true ref repo_id directory =
      git.create_commit ref (readme_content repo_id) directory
  initial_commit false ref repo_id directory = (ok tt, directory)

  unfoldable pub init_bare_repo :
      (repo_id : ℕ) → (default_branch : String) → (auto_init : Bool) → Option R → Outcome R
  init_bare_repo repo_id default_branch auto_init directory =
      and_then
        (and_then (git.init_repository directory)
          (git.set_head (concat "refs/heads/" default_branch)))
        (initial_commit auto_init (concat "refs/heads/" default_branch) repo_id)

  -- The row of the initial branch, if there is an initial commit.
  unfoldable pub record_branch :
      (auto_init : Bool) → Repository → (directory : Option R) → Exec RepoStore (Unit {0})
  record_branch false repo directory = pure tt
  record_branch true repo directory = do
    head_sha ← lift (git.head_target directory)
    modify (
        add_branch (record {
          repository_id = repo.id;
          name = repo.default_branch;
          is_protected = false;
          is_default = true;
          last_commit_sha = some head_sha;
        }))

  unfoldable pub finish_repository :
      (auto_init : Bool) → Repository → Outcome R → Exec RepoStore Repository
  finish_repository auto_init repo (err e, directory) = rollback >> raise (http internal_error)
  finish_repository auto_init repo (ok done, directory) = do
    record_branch auto_init repo directory
    commit satisfies_constraints
    pure repo

  -- An error of the mkdir is not caught.
  unfoldable pub init_in_root :
      (auto_init : Bool)
      → Repository
      → Result (Unit {0}) × Disk R
      → Session RepoStore
      → (Result Repository × Session RepoStore) × Disk R
  init_in_root auto_init repo (err e, disk) s = ((err e, s), disk)
  init_in_root auto_init repo (ok done, disk) s =
      let outcome = init_bare_repo repo.id repo.default_branch auto_init (disk repo.disk_path) in
      (finish_repository auto_init repo outcome s, put repo.disk_path outcome.1 disk)

  -- The root and the new repository's directory are made once its row is flushed.
  unfoldable pub init_and_finish :
      (root : String)
      → (auto_init : Bool) → Disk R
      → Result Repository
      → Session RepoStore
      → (Result Repository × Session RepoStore) × Disk R
  init_and_finish root auto_init disk (err e) s = ((err e, s), disk)
  init_and_finish root auto_init disk (ok repo) s =
      init_in_root auto_init repo (git.mkdir root disk) s

  unfoldable pub create_repository :
      (root : String)
      → (repo_id actor_id : ℕ) → RepositoryCreate
      → Disk R
      → Session RepoStore
      → (Result Repository × Session RepoStore) × Disk R
  create_repository root repo_id actor_id payload disk s =
      let (prepared, s') = prepare_repository root repo_id actor_id payload s in
      init_and_finish root payload.auto_init disk prepared s'

  unfoldable pub clone_and_finish :
      (source_repo : Repository)
      → Disk R
      → Result Repository
      → Session RepoStore
      → (Result Repository × Session RepoStore) × Disk R
  clone_and_finish source_repo disk (err e) s = ((err e, s), disk)
  clone_and_finish source_repo disk (ok forked) s =
      let outcome = git.clone_repository (disk source_repo.disk_path) (disk forked.disk_path) in
      (finish_fork forked outcome.0 s, put forked.disk_path outcome.1 disk)

  unfoldable pub fork_repository :
      (root : String)
      → (repo_id actor_id : ℕ) → (source_repo : Repository) → (new_owner_org_id : Option ℕ) → Disk R
      → Session RepoStore
      → (Result Repository × Session RepoStore) × Disk R
  fork_repository root repo_id actor_id source_repo new_owner_org_id disk s =
      let (prepared, s') = prepare_fork root repo_id actor_id source_repo new_owner_org_id s in
      clone_and_finish source_repo disk prepared s'

  -- Whether the directory could be removed is only logged.
  unfoldable pub remove_directory : (path : String) → Result (Unit {0}) → Disk R → Disk R
  remove_directory path (err e) disk = disk
  remove_directory path (ok done) disk =
      if is_some (disk path) then put path (git.rmtree (disk path)).1 disk else disk

  unfoldable pub delete_repository :
      Repository → Disk R → Session RepoStore → (Result (Unit {0}) × Session RepoStore) × Disk R
  delete_repository repo disk s =
      let (deleted, s') = delete_rows repo s in
      ((deleted, s'), remove_directory repo.disk_path deleted disk)
