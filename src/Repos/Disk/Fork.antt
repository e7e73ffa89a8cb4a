-- ===== src/Repos/Disk/Fork.antt =====
-- repo_service.py: what a fork that succeeds has done, and that the rows stay valid.
use mathlib.Core.Path.{subst}
use pandahub.Prelude.{ℕ, suc, ◌≡◌, refl, ap, ◌∙◌, sym, Option, none, true, String, arith, ◌==◌}
use pandahub.Exceptions.{Result, ok, err}
use pandahub.Session.{Session}
use pandahub.Table.{select, scalar_one_or_none, unique}
use pandahub.Enums.{private}
use pandahub.Repos.Store.{Repository, RepoStore, satisfies_constraints, change_repository}
use pandahub.Repos.{has_name, ensure_name_available, owner_user}
use pandahub.Repos.Valid.{same_name, IsValid, KeepsColumns, unique_names-update}
use pandahub.Repos.Disk.{
  BareRepositories, Disk, new_fork, set_fork_count, add_repository, prepare_fork, finish_fork,
  clone_and_finish, fork_repository,
}
use pandahub.Repos.Disk.Failure.{start, prepare_fork_source}
use pandahub.Repos.Disk.Create.{unique_names-snoc}

pub set_fork_count-KeepsColumns : (count : ℕ) → KeepsColumns (set_fork_count count)
unfolding set_fork_count
set_fork_count-KeepsColumns count = record {
  id = λ r. refl;
  owner_user_id = λ r. refl;
  owner_organization_id = λ r. refl;
  name = λ r. refl;
  disk_path = λ r. refl;
}

-- The rows with the fork, and one more fork counted for its source.
abbrev pub with_fork : Repository → (forked : Repository) → RepoStore → RepoStore
with_fork source_repo forked d =
    change_repository source_repo.id (set_fork_count (suc source_repo.fork_count))
      (add_repository forked d)

module _ {R : Type 0} (git : BareRepositories R) (root : String) (repo_id actor_id : ℕ)
    (source_repo : Repository) (organization : Option ℕ) (disk : Disk R) where
  prepared_rows :
      (s : Session RepoStore) (forked : Repository)
      → (prepare_fork root repo_id actor_id source_repo organization s).0 ≡ ok forked
      → ((prepare_fork root repo_id actor_id source_repo organization s).1.current
          ≡ with_fork source_repo
              (new_fork root repo_id actor_id source_repo organization)
              s.current)
        × (scalar_one_or_none (
              select
                (has_name source_repo.name (owner_user actor_id organization) organization none)
                s.current.repositories)
            ≡ ok none)
  unfolding prepare_fork ensure_name_available
  prepared_rows s forked h = (ground arith, ground arith)

  finished_rows :
      (made forked : Repository) (outcome : Result (Unit {0})) (s : Session RepoStore)
      → (finish_fork made outcome s).0 ≡ ok forked
      → (forked ≡ made)
        × (outcome ≡ ok tt)
        × ((finish_fork made outcome s).1.committed ≡ s.current)
        × (satisfies_constraints s.current ≡ true)
  unfolding finish_fork
  finished_rows made forked outcome s h = (ground arith, ground arith, ground arith, ground arith)

  cloned_source :
      (prepared : Result Repository) (s : Session RepoStore) (forked : Repository)
      → (clone_and_finish git source_repo disk prepared s).0.0 ≡ ok forked
      → (prepared ≡ ok forked)
        × ((git.clone_repository (disk source_repo.disk_path) (disk forked.disk_path)).0 ≡ ok tt)
        × ((clone_and_finish git source_repo disk prepared s).0.1.committed ≡ s.current)
        × (satisfies_constraints s.current ≡ true)
  unfolding clone_and_finish
  cloned_source (err e) s forked h = cc
  cloned_source (ok made) s forked h =
      let (same, cloned, rows, valid) = finished_rows made forked _ s h in
      (
        ap ok (sym same),
        ap (λ r. (git.clone_repository (disk source_repo.disk_path) (disk r.disk_path)).0) same
            ∙ cloned,
        rows,
        valid,
      )

  fork_names :
      (d : RepoStore)
      → IsValid d
      → scalar_one_or_none (
          select
            (has_name source_repo.name (owner_user actor_id organization) organization none)
            d.repositories)
        ≡ ok none
      → unique same_name
          (with_fork source_repo
            (new_fork root repo_id actor_id source_repo organization)
            d).repositories
        ≡ true
  unfolding change_repository add_repository
  fork_names d v free =
      unique_names-update (set_fork_count (suc source_repo.fork_count))
        (set_fork_count-KeepsColumns _) (λ r. r.id == source_repo.id) _
      ∙ unique_names-snoc d.repositories (new_fork root repo_id actor_id source_repo organization)
          v.names (unfold new_fork in free)

  -- If a fork on valid rows returns a repository, it is private, named like its source and owned by
  -- the organization that was asked for or else by the actor; the committed rows are those before
  -- with the fork and one more fork counted, and valid; and pygit2 has cloned the source's directory
  -- without an error.
  pub fork_repository_ok :
      (d : RepoStore)
      → IsValid d
      → (forked : Repository)
      → (fork_repository git root repo_id actor_id source_repo organization disk (start d)).0.0
        ≡ ok forked
      → (forked ≡ new_fork root repo_id actor_id source_repo organization)
        × ((fork_repository git root repo_id actor_id source_repo organization disk
              (start d)).0.1.committed
            ≡ with_fork source_repo forked d)
        × IsValid (with_fork source_repo forked d)
        × (forked.visibility ≡ private)
        × (forked.owner_user_id ≡ owner_user actor_id organization)
        × (forked.owner_organization_id ≡ organization)
        × ((git.clone_repository (disk source_repo.disk_path) (disk forked.disk_path)).0 ≡ ok tt)
  unfolding fork_repository
  fork_repository_ok d v forked h =
      let (p, cloned, rows, valid) =
        cloned_source (prepare_fork root repo_id actor_id source_repo organization (start d)).0
          (prepare_fork root repo_id actor_id source_repo organization (start d)).1 forked h in
      let (current, free) = prepared_rows (start d) forked p in
      let same =
        prepare_fork_source root repo_id actor_id source_repo organization (start d) forked p in
      let written = current ∙ ap (λ r. with_fork source_repo r d) (sym same) in
      (
        same,
        rows ∙ written,
        record {
          constraints = ap satisfies_constraints (sym written) ∙ valid;
          names =
              subst (λ r. unique same_name (with_fork source_repo r d).repositories ≡ true)
                (sym same) (fork_names d v free);
        },
        ap (λ r. r.visibility) same ∙ unfold new_fork in refl,
        ap (λ r. r.owner_user_id) same ∙ unfold new_fork in refl,
        ap (λ r. r.owner_organization_id) same ∙ unfold new_fork in refl,
        cloned,
      )
