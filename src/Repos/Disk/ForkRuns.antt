-- ===== src/Repos/Disk/ForkRuns.antt =====
-- repo_service.py: a fork succeeds where nothing stands in its way, and no role is in its way.
use text.Mathlib.Text.{◌==◌ as str_eq}
use pandahub.Prelude.{ℕ, ◌≡◌, refl, Option, none, some, true, false, String, any, arith}
use pandahub.Exceptions.{ok}
use pandahub.Table.{scalar_one_or_none}
use pandahub.Table.Laws.{In, select_none}
use pandahub.Repos.Store.{
  Repository, RepoStore, refers, has_user, has_organization, has_owner, has_source, is_single,
  has_single_owner, has_repository,
}
use pandahub.Repos.{has_name, ensure_name_available, owner_user}
use pandahub.Repos.Valid.{IsValid, change-IsValid, has_repository-In}
use pandahub.Repos.Disk.{
  BareRepositories, Disk, build_disk_path, new_fork, set_fork_count, add_repository, prepare_fork,
  finish_fork, clone_and_finish, fork_repository, put,
}
use pandahub.Repos.Disk.Failure.{start}
use pandahub.Repos.Disk.Create.{unique_names-snoc}
use pandahub.Repos.Disk.CreateRuns.{added-valid}
use pandahub.Repos.Disk.Fork.{set_fork_count-KeepsColumns, with_fork}

set_fork_count_keeps_source :
    (count : ℕ) (r : Repository) → (set_fork_count count r).forked_from_id ≡ r.forked_from_id
unfolding set_fork_count
set_fork_count_keeps_source count r = refl

one_owner : (actor_id : ℕ) (o : Option ℕ) → is_single (owner_user actor_id o) o ≡ true
unfolding is_single owner_user
one_owner actor_id none = refl
one_owner actor_id (some o) = refl

module _ (root : String) (repo_id actor_id : ℕ) (source_repo : Repository) (organization : Option ℕ)
    (d : RepoStore) where
  -- The source and the new owner are stored, the owner has no repository of the name, and the new id
  -- and its path are unused.
  pub record IsForkable : Type 0 where
    pub loaded : In source_repo d.repositories
    pub known :
        (refers (has_user d.users) (owner_user actor_id organization) ≡ true)
        × (refers (has_organization d.organizations) organization ≡ true)
    pub free :
        any
          (has_name source_repo.name (owner_user actor_id organization) organization none)
          d.repositories
        ≡ false
    pub fresh : has_repository d.repositories repo_id ≡ false
    pub unused : any (λ r. str_eq r.disk_path (build_disk_path root repo_id)) d.repositories ≡ false

  module _ (v : IsValid d) (c : IsForkable) where
    fork_has_single_owner :
        has_single_owner (new_fork root repo_id actor_id source_repo organization) ≡ true
    unfolding has_single_owner new_fork
    fork_has_single_owner = one_owner actor_id organization

    fork_has_owner :
        has_owner d.users d.organizations (new_fork root repo_id actor_id source_repo organization)
        ≡ true
    unfolding has_owner new_fork
    fork_has_owner = ground (arith, c.known.0, c.known.1)

    fork_has_source :
        has_source d.repositories (new_fork root repo_id actor_id source_repo organization) ≡ true
    unfolding has_source refers new_fork
    fork_has_source = has_repository-In source_repo d.repositories c.loaded

    added-IsValid :
        IsValid (add_repository (new_fork root repo_id actor_id source_repo organization) d)
    added-IsValid = record {
      constraints =
          added-valid d v (new_fork root repo_id actor_id source_repo organization)
            (unfold new_fork in c.fresh) (unfold new_fork in c.unused) fork_has_single_owner
            fork_has_owner fork_has_source;
      names =
          unfold add_repository in
          unique_names-snoc d.repositories (new_fork root repo_id actor_id source_repo organization)
            v.names
            (unfold new_fork scalar_one_or_none in rw (select_none _ d.repositories c.free) refl);
    }

    forked-IsValid :
        IsValid (with_fork source_repo (new_fork root repo_id actor_id source_repo organization) d)
    forked-IsValid =
        change-IsValid _ (set_fork_count-KeepsColumns _) (set_fork_count_keeps_source _)
          source_repo.id _ added-IsValid

    -- On valid rows, a fork succeeds for every actor, whatever their role in the organization that
    -- is to own it and also without one, if the source and the new owner are stored, the owner has
    -- no repository of the name, the new id and path are unused and pygit2 clones the directory: it
    -- returns the fork, commits it with one more fork counted, and leaves what pygit2 made at its
    -- path and nothing else changed on the disk.
    pub fork_repository_runs :
        {R : Type 0} (git : BareRepositories R) (disk : Disk R)
        → (git.clone_repository
            (disk source_repo.disk_path)
            (disk (build_disk_path root repo_id))).0
          ≡ ok tt
        → fork_repository git root repo_id actor_id source_repo organization disk (start d) ≡ (
          (
            ok (new_fork root repo_id actor_id source_repo organization),
            start
                (with_fork source_repo (new_fork root repo_id actor_id source_repo organization) d),
          ),
          put
              (build_disk_path root repo_id)
              (git.clone_repository
                (disk source_repo.disk_path)
                (disk (build_disk_path root repo_id))).1
              disk,
        )
    unfolding fork_repository prepare_fork ensure_name_available clone_and_finish finish_fork
        scalar_one_or_none
    fork_repository_runs git disk cloned =
        let cloned_here : (git.clone_repository (disk source_repo.disk_path)
              (disk (new_fork root repo_id actor_id source_repo organization).disk_path)).0
            ≡ ok tt =
          unfold new_fork in cloned in
        let path_here : (new_fork root repo_id actor_id source_repo organization).disk_path
            ≡ build_disk_path root repo_id =
          unfold new_fork in refl in
        rw
          (
            select_none
                (has_name source_repo.name (owner_user actor_id organization) organization none)
                d.repositories c.free,
            forked-IsValid.constraints,
          )
          (rw (cloned_here) (rw (forked-IsValid.constraints, path_here) refl))
