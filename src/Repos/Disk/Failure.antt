-- ===== src/Repos/Disk/Failure.antt =====
-- repo_service.py: a creation or a fork that raises leaves the committed rows as they were.
use text.Mathlib.Text.{◌==◌ as str_eq}
use pandahub.Prelude.{ℕ, ◌≡◌, refl, ap, ◌∙◌, Option, Bool, false, String, arith}
use pandahub.Exceptions.{Error, Result, ok, err}
use pandahub.Session.{Session}
use pandahub.Repos.Store.{Repository, RepositoryCreate, RepoStore}
use pandahub.Repos.{ensure_name_available, check_organization_role}
use pandahub.Repos.Disk.{
  Outcome, BareRepositories, Disk, build_disk_path, new_repository, new_fork, prepare_repository,
  prepare_fork, finish_fork, put, record_branch, finish_repository, init_in_root, init_and_finish,
  create_repository, clone_and_finish, fork_repository,
}

abbrev pub start : RepoStore → Session RepoStore
start d = record { committed = d; current = d }

-- Nothing is committed before the flush.
prepare_repository_keeps :
    (root : String) (repo_id actor_id : ℕ) (payload : RepositoryCreate) (s : Session RepoStore)
    → (prepare_repository root repo_id actor_id payload s).1.committed ≡ s.committed
unfolding prepare_repository check_organization_role ensure_name_available
prepare_repository_keeps root repo_id actor_id payload s = ground arith

prepare_fork_keeps :
    (root : String) (repo_id actor_id : ℕ) (source_repo : Repository) (organization : Option ℕ)
    (s : Session RepoStore)
    → (prepare_fork root repo_id actor_id source_repo organization s).1.committed ≡ s.committed
unfolding prepare_fork ensure_name_available
prepare_fork_keeps root repo_id actor_id source_repo organization s = ground arith

-- What a prepared repository is.
pub prepare_repository_source :
    (root : String) (repo_id actor_id : ℕ) (payload : RepositoryCreate) (s : Session RepoStore)
    (repo : Repository)
    → (prepare_repository root repo_id actor_id payload s).0 ≡ ok repo
    → repo ≡ new_repository root repo_id actor_id payload
unfolding prepare_repository check_organization_role ensure_name_available
prepare_repository_source root repo_id actor_id payload s repo h = ground arith

pub prepare_fork_source :
    (root : String) (repo_id actor_id : ℕ) (source_repo : Repository) (organization : Option ℕ)
    (s : Session RepoStore) (repo : Repository)
    → (prepare_fork root repo_id actor_id source_repo organization s).0 ≡ ok repo
    → repo ≡ new_fork root repo_id actor_id source_repo organization
unfolding prepare_fork ensure_name_available
prepare_fork_source root repo_id actor_id source_repo organization s repo h = ground arith

module _ {R : Type 0} (git : BareRepositories R) where
  finish_repository_error :
      (auto_init : Bool) (repo : Repository) (outcome : Outcome R) (s : Session RepoStore)
      (e : Error)
      → (finish_repository git auto_init repo outcome s).0 ≡ err e
      → (finish_repository git auto_init repo outcome s).1.committed ≡ s.committed
  unfolding finish_repository record_branch
  finish_repository_error auto_init repo outcome s e h = ground arith

  finish_fork_error :
      (repo : Repository) (outcome : Result (Unit {0})) (s : Session RepoStore) (e : Error)
      → (finish_fork repo outcome s).0 ≡ err e
      → (finish_fork repo outcome s).1.committed ≡ s.committed
  unfolding finish_fork
  finish_fork_error repo outcome s e h = ground arith

  -- The committed rows and the disk after a call that raised.
  abbrev Unharmed :
      (path : String)
      → RepoStore
      → Disk R
      → (Result Repository × Session RepoStore) × Disk R
      → Type 0
  Unharmed path d disk ((result, s), after) =
      ((e : Error) → result ≡ err e → s.committed ≡ d)
      × ((other : String) → str_eq other path ≡ false → after other ≡ disk other)

  put_other :
      (path other : String) (directory : Option R) (disk : Disk R)
      → str_eq other path ≡ false
      → put path directory disk other ≡ disk other
  unfolding put
  put_other path other directory disk h = rw h refl

  init_in_root_error :
      (auto_init : Bool) (repo : Repository) (rooted : Result (Unit {0}) × Disk R)
      (s : Session RepoStore)
      → Unharmed repo.disk_path s.committed rooted.1 (init_in_root git auto_init repo rooted s)
  unfolding init_in_root
  init_in_root_error auto_init repo (err e, disk) s = (λ e' q. refl, λ other n. refl)
  init_in_root_error auto_init repo (ok done, disk) s = (
    λ e q. finish_repository_error auto_init repo _ s e q,
    λ other n. put_other repo.disk_path other _ disk n,
  )

  -- The committed rows and the disk after a creation: the root is made once the row is flushed.
  abbrev CreateUnharmed :
      (root path : String)
      → RepoStore
      → Disk R
      → Result Repository
      → (Result Repository × Session RepoStore) × Disk R
      → Type 0
  CreateUnharmed root path d disk prepared ((result, s), after) =
      ((e : Error) → result ≡ err e → s.committed ≡ d)
      × ((e : Error) → prepared ≡ err e → after ≡ disk)
      × ((repo : Repository) (other : String)
          → prepared ≡ ok repo
          → str_eq other path ≡ false
          → after other ≡ (git.mkdir root disk).1 other)

  init_and_finish_error :
      (root path : String) (auto_init : Bool) (disk : Disk R) (prepared : Result Repository)
      (s : Session RepoStore) (d : RepoStore)
      → ((repo : Repository) → prepared ≡ ok repo → repo.disk_path ≡ path)
      → s.committed ≡ d
      → CreateUnharmed root path d disk prepared
          (init_and_finish git root auto_init disk prepared s)
  unfolding init_and_finish
  init_and_finish_error root path auto_init disk (err e) s d h k =
      (λ e' q. k, λ e' q. refl, λ repo other q n. cc)
  init_and_finish_error root path auto_init disk (ok repo) s d h k =
      let (rows, others) = init_in_root_error auto_init repo (git.mkdir root disk) s in
      (
        λ e q. rows e q ∙ k,
        λ e q. cc,
        λ made other q n. others other (ap (str_eq other) (h repo refl) ∙ n),
      )

  clone_and_finish_error :
      (path : String) (source_repo : Repository) (disk : Disk R) (prepared : Result Repository)
      (s : Session RepoStore) (d : RepoStore)
      → ((repo : Repository) → prepared ≡ ok repo → repo.disk_path ≡ path)
      → s.committed ≡ d
      → Unharmed path d disk (clone_and_finish git source_repo disk prepared s)
  unfolding clone_and_finish
  clone_and_finish_error path source_repo disk (err e) s d h k = (λ e' q. k, λ other n. refl)
  clone_and_finish_error path source_repo disk (ok repo) s d h k = (
    λ e q. finish_fork_error repo _ s e q ∙ k,
    λ other n. put_other repo.disk_path other _ disk (ap (str_eq other) (h repo refl) ∙ n),
  )

  module _ (root : String) (repo_id actor_id : ℕ) (disk : Disk R) (d : RepoStore) where
    -- If a creation raises, on whatever branch, the committed rows are those before the call. One
    -- that raises up to the flush leaves the disk as it was; after the flush, every path but the new
    -- repository's is what the mkdir of the root left there, also if a later step raises.
    pub create_repository_error :
        (payload : RepositoryCreate)
        → ((e : Error)
            → (create_repository git root repo_id actor_id payload disk (start d)).0.0 ≡ err e
            → (create_repository git root repo_id actor_id payload disk (start d)).0.1.committed
              ≡ d)
          × ((e : Error)
              → (prepare_repository root repo_id actor_id payload (start d)).0 ≡ err e
              → (create_repository git root repo_id actor_id payload disk (start d)).1 ≡ disk)
          × ((repo : Repository) (other : String)
              → (prepare_repository root repo_id actor_id payload (start d)).0 ≡ ok repo
              → str_eq other (build_disk_path root repo_id) ≡ false
              → (create_repository git root repo_id actor_id payload disk (start d)).1 other
                ≡ (git.mkdir root disk).1 other)
    unfolding create_repository
    create_repository_error payload =
        init_and_finish_error root (build_disk_path root repo_id) payload.auto_init disk _ _ d
          (λ repo q.
            ap (λ r. r.disk_path)
              (prepare_repository_source root repo_id actor_id payload (start d) repo q)
            ∙ unfold new_repository in refl)
          (prepare_repository_keeps root repo_id actor_id payload (start d))

    pub fork_repository_error :
        (source_repo : Repository) (organization : Option ℕ)
        → ((e : Error)
            → (fork_repository git root repo_id actor_id source_repo organization disk
                (start d)).0.0
              ≡ err e
            → (fork_repository git root repo_id actor_id source_repo organization disk
                (start d)).0.1.committed
              ≡ d)
          × ((other : String)
              → str_eq other (build_disk_path root repo_id) ≡ false
              → (fork_repository git root repo_id actor_id source_repo organization disk
                    (start d)).1
                  other
                ≡ disk other)
    unfolding fork_repository
    fork_repository_error source_repo organization =
        clone_and_finish_error (build_disk_path root repo_id) source_repo disk _ _ d
          (λ repo q.
            ap (λ r. r.disk_path)
              (prepare_fork_source root repo_id actor_id source_repo organization (start d) repo q)
            ∙ unfold new_fork in refl)
          (prepare_fork_keeps root repo_id actor_id source_repo organization (start d))
