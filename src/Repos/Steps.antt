-- ===== src/Repos/Steps.antt =====
-- repo_service.py: the service as a step relation on the committed rows, whatever the requests ask
-- for and however they end.
use mathlib.Core.Path.{subst}
use pandahub.Prelude.{
  ◌==◌, ℕ, ◌≡◌, refl, sym, ◌∙◌, inl, inr, Option, true, String, [], ◌∷◌, ◌++◌, Bool-cases,
  Option-cases,
}
use pandahub.Exceptions.{Result-cases}
use pandahub.Session.{run, commit, pure, ◌>>◌}
use pandahub.Table.{select, scalar_one_or_none, unique, update_where}
use pandahub.Enums.{PermissionLevel}
use pandahub.Permissions.{collaborates}
use pandahub.Repos.Store.{
  Repository, RepositoryCreate, RepositoryUpdate, RepoStore, satisfies_constraints,
  change_repository,
}
use pandahub.Repos.{breaks_not_null, set_metadata, update_repository}
use pandahub.Repos.Valid.{same_name, IsValid, KeepsColumns, change-IsValid, unique_names-update}
use pandahub.Repos.Disk.{
  BareRepositories, Disk, create_repository, fork_repository, delete_repository,
}
use pandahub.Repos.Disk.Failure.{start, create_repository_error, fork_repository_error}
use pandahub.Repos.Disk.Create.{create_repository_ok}
use pandahub.Repos.Disk.Fork.{fork_repository_ok}
use pandahub.Repos.Disk.Delete.{delete_repository_lem}
use pandahub.Repos.Marks.{
  is_star, is_watch, add_star, add_watcher, remove_stars, remove_watchers, star_unless,
  watch_unless, star_repository, unstar_repository, watch_repository, unwatch_repository,
}
use pandahub.Repos.Marks.Stars.{set_star_count-KeepsColumns, with_star, without_star}
use pandahub.Repos.Marks.Watchers.{set_watcher_count-KeepsColumns, with_watcher, without_watcher}
use pandahub.Repos.Collaborators.{
  change_collaborators, new_grant, set_permission, grant, add_collaborator, remove_collaborator,
}

-- One call of the service and the rows that it leaves committed.
pub data Step : RepoStore → RepoStore → Type 1 where
  creates :
      {R : Type 0} (git : BareRepositories R) (root : String) (repo_id actor_id : ℕ)
      (payload : RepositoryCreate) (disk : Disk R) (d : RepoStore)
      → Step d (create_repository git root repo_id actor_id payload disk (start d)).0.1.committed
  forks :
      {R : Type 0} (git : BareRepositories R) (root : String) (repo_id actor_id : ℕ)
      (source_repo : Repository) (organization : Option ℕ) (disk : Disk R) (d : RepoStore)
      → Step d
          (fork_repository git root repo_id actor_id source_repo organization disk
            (start d)).0.1.committed
  deletes :
      {R : Type 0} (git : BareRepositories R) (repo : Repository) (disk : Disk R) (d : RepoStore)
      → Step d (delete_repository git repo disk (start d)).0.1.committed
  updates :
      (repo : Repository) (payload : RepositoryUpdate) (d : RepoStore)
      → Step d (run (update_repository repo payload) d).1
  stars :
      (user_id : ℕ) (repo : Repository) (d : RepoStore)
      → Step d (run (star_repository user_id repo) d).1
  unstars :
      (user_id : ℕ) (repo : Repository) (d : RepoStore)
      → Step d (run (unstar_repository user_id repo) d).1
  watches :
      (user_id : ℕ) (repo : Repository) (d : RepoStore)
      → Step d (run (watch_repository user_id repo) d).1
  unwatches :
      (user_id : ℕ) (repo : Repository) (d : RepoStore)
      → Step d (run (unwatch_repository user_id repo) d).1
  grants :
      (repo : Repository) (user_id : ℕ) (permission : PermissionLevel) (d : RepoStore)
      → Step d (run (add_collaborator repo user_id permission) d).1
  revokes :
      (repo : Repository) (user_id : ℕ) (d : RepoStore)
      → Step d (run (remove_collaborator repo user_id) d).1

pub data Steps (d : RepoStore) : RepoStore → Type 1 where
  unchanged : Steps d d
  one_more : {before after : RepoStore} → Steps d before → Step before after → Steps d after

-- What a commit leaves.
committed_or_kept :
    (before after : RepoStore)
    → IsValid before
    → unique same_name after.repositories ≡ true
    → IsValid
        (commit satisfies_constraints (record { committed = before; current = after })).1.committed
committed_or_kept before after v names = elim (Bool-cases (satisfies_constraints after)) [
  | inl e ↦ rw e (record { constraints = e; names = names })
  | inr e ↦ rw e v
]

committed_then :
    {A : Type 0} (a : A) (before after : RepoStore)
    → IsValid before
    → unique same_name after.repositories ≡ true
    → IsValid
        ((commit satisfies_constraints >> pure a)
          (record { committed = before; current = after })).1.committed
committed_then a before after v names = elim (Bool-cases (satisfies_constraints after)) [
  | inl e ↦ rw e (record { constraints = e; names = names })
  | inr e ↦ rw e v
]

set_metadata-KeepsColumns : (payload : RepositoryUpdate) → KeepsColumns (set_metadata payload)
unfolding set_metadata
set_metadata-KeepsColumns payload = record {
  id = λ r. refl;
  owner_user_id = λ r. refl;
  owner_organization_id = λ r. refl;
  name = λ r. refl;
  disk_path = λ r. refl;
}

set_metadata_keeps_source :
    (payload : RepositoryUpdate) (r : Repository)
    → (set_metadata payload r).forked_from_id ≡ r.forked_from_id
unfolding set_metadata
set_metadata_keeps_source payload r = refl

module _ (d : RepoStore) (v : IsValid d) where
  create-IsValid :
      {R : Type 0} (git : BareRepositories R) (root : String) (repo_id actor_id : ℕ)
      (payload : RepositoryCreate) (disk : Disk R)
      → IsValid (create_repository git root repo_id actor_id payload disk (start d)).0.1.committed
  create-IsValid git root repo_id actor_id payload disk =
      elim (Result-cases (create_repository git root repo_id actor_id payload disk (start d)).0.0) [
        | inl (repo, e) ↦ (create_repository_ok git root repo_id actor_id payload disk d v repo e).4
        | inr (raised, e) ↦
            subst IsValid
              (sym ((create_repository_error git root repo_id actor_id disk d payload).0 raised e))
              v
      ]

  fork-IsValid :
      {R : Type 0} (git : BareRepositories R) (root : String) (repo_id actor_id : ℕ)
      (source_repo : Repository) (organization : Option ℕ) (disk : Disk R)
      → IsValid
          (fork_repository git root repo_id actor_id source_repo organization disk
            (start d)).0.1.committed
  fork-IsValid git root repo_id actor_id source_repo organization disk =
      elim (Result-cases
        (fork_repository git root repo_id actor_id source_repo organization disk (start d)).0.0) [
          | inl (forked, e) ↦
              let (same, rows, valid, visibility, user, owner, cloned) =
                fork_repository_ok git root repo_id actor_id source_repo organization disk d v
                  forked e in
              subst IsValid (sym rows) valid
          | inr (raised, e) ↦
              subst IsValid
                (sym (
                  (fork_repository_error git root repo_id actor_id disk d source_repo
                      organization).0
                    raised e))
                v
        ]

  update-IsValid :
      (repo : Repository) (payload : RepositoryUpdate)
      → IsValid (run (update_repository repo payload) d).1
  unfolding update_repository
  update-IsValid repo payload =
      let valid =
        change-IsValid _ (set_metadata-KeepsColumns payload) (set_metadata_keeps_source payload)
          repo.id d v in
      elim (Bool-cases (breaks_not_null payload)) [
        | inl e ↦ rw (run, e) v
        | inr e ↦ rw (run, e, valid.constraints) valid
      ]

  names_kept :
      (id : ℕ) (f : Repository → Repository)
      → KeepsColumns f
      → unique same_name (change_repository id f d).repositories ≡ true
  unfolding change_repository
  names_kept id f keeps = unique_names-update f keeps (λ r. r.id == id) d.repositories ∙ v.names

  star-IsValid :
      (user_id : ℕ) (repo : Repository) → IsValid (run (star_repository user_id repo) d).1
  unfolding star_repository star_unless
  star-IsValid user_id repo =
      elim (Result-cases (scalar_one_or_none (select (is_star repo.id user_id) d.stars))) [
        | inr (e, q) ↦ rw (run, q) v
        | inl (existing, q) ↦ elim (Option-cases existing) [
          | inr (s, k) ↦ rw (run, q, k) v
          | inl n ↦
              rw (run, q, n)
                (committed_or_kept d (with_star user_id repo d) v (
                  unfold change_repository add_star in
                  names_kept repo.id _ (set_star_count-KeepsColumns _)))
        ]
      ]

  unstar-IsValid :
      (user_id : ℕ) (repo : Repository) → IsValid (run (unstar_repository user_id repo) d).1
  unfolding unstar_repository
  unstar-IsValid user_id repo = committed_or_kept d (without_star user_id repo d) v (
      unfold change_repository remove_stars in names_kept repo.id _ (set_star_count-KeepsColumns _))

  watch-IsValid :
      (user_id : ℕ) (repo : Repository) → IsValid (run (watch_repository user_id repo) d).1
  unfolding watch_repository watch_unless
  watch-IsValid user_id repo =
      elim (Result-cases (scalar_one_or_none (select (is_watch repo.id user_id) d.watchers))) [
        | inr (e, q) ↦ rw (run, q) v
        | inl (existing, q) ↦ elim (Option-cases existing) [
          | inr (s, k) ↦ rw (run, q, k) v
          | inl n ↦
              rw (run, q, n)
                (committed_or_kept d (with_watcher user_id repo d) v (
                  unfold change_repository add_watcher in
                  names_kept repo.id _ (set_watcher_count-KeepsColumns _)))
        ]
      ]

  unwatch-IsValid :
      (user_id : ℕ) (repo : Repository) → IsValid (run (unwatch_repository user_id repo) d).1
  unfolding unwatch_repository
  unwatch-IsValid user_id repo = committed_or_kept d (without_watcher user_id repo d) v (
      unfold change_repository remove_watchers in
      names_kept repo.id _ (set_watcher_count-KeepsColumns _))

  grant-IsValid :
      (repo : Repository) (user_id : ℕ) (permission : PermissionLevel)
      → IsValid (run (add_collaborator repo user_id permission) d).1
  unfolding add_collaborator grant
  grant-IsValid repo user_id permission =
      elim (Result-cases
        (scalar_one_or_none (select (collaborates repo.id user_id) d.access.collaborators))) [
          | inr (e, q) ↦ rw (run, q) v
          | inl (existing, q) ↦ elim (Option-cases existing) [
            | inr (s, k) ↦
                rw (run, q, k)
                  (committed_then (set_permission permission s) d
                    (change_collaborators
                      (update_where (collaborates repo.id user_id) (set_permission permission)) d)
                    v v.names)
            | inl n ↦
                rw (run, q, n)
                  (committed_then (new_grant repo user_id permission) d
                    (change_collaborators (λ rows. rows ++ new_grant repo user_id permission ∷ [])
                      d)
                    v v.names)
          ]
        ]

  revoke-IsValid :
      (repo : Repository) (user_id : ℕ) → IsValid (run (remove_collaborator repo user_id) d).1
  unfolding remove_collaborator
  revoke-IsValid repo user_id = committed_or_kept d _ v v.names

step-IsValid : (before after : RepoStore) → Step before after → IsValid before → IsValid after
step-IsValid before after (creates git root i a p disk _) v =
    create-IsValid before v git root i a p disk
step-IsValid before after (forks git root i a s o disk _) v =
    fork-IsValid before v git root i a s o disk
step-IsValid before after (deletes git repo disk _) v =
    let (done, valid, gone, directory, others) = delete_repository_lem git repo disk before v in
    subst (λ outcome. IsValid outcome.1.committed) (sym done) valid
step-IsValid before after (updates repo p _) v = update-IsValid before v repo p
step-IsValid before after (stars u r _) v = star-IsValid before v u r
step-IsValid before after (unstars u r _) v = unstar-IsValid before v u r
step-IsValid before after (watches u r _) v = watch-IsValid before v u r
step-IsValid before after (unwatches u r _) v = unwatch-IsValid before v u r
step-IsValid before after (grants r u p _) v = grant-IsValid before v r u p
step-IsValid before after (revokes r u _) v = revoke-IsValid before v r u

-- Along any run of calls, whatever they ask for and however they end, rows that were valid stay
-- valid: the database's constraints hold and no owner has two repositories of one name.
pub Steps-IsValid : (d after : RepoStore) → IsValid d → Steps d after → IsValid after
Steps-IsValid d after v unchanged = v
Steps-IsValid d after v (one_more {before = before} earlier step) =
    step-IsValid before after step (Steps-IsValid d before v earlier)
