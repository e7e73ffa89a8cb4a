-- ===== src/Pulls/Merging.antt =====
-- backend/app/services/pr_service.py: `merge_pull_request` and `get_pull_request_diff`.
-- The merge runs on the refs of merger.py, which no transaction rolls back.
use pandahub.Prelude.{str, concat, ℕ, Option, none, some, not, String, ◌==◌, if◌then◌else◌}
use pandahub.Exceptions.{
  Error, Error.conflict, Error.permission_denied, Error.app_error, Result, ok, err,
}
use pandahub.Session.{
  Exec, Session, pure, raise, lift, query, or_raise, modify, commit, ◌>>=◌, ◌>>◌,
}
use pandahub.Table.{select, scalar_one_or_none}
use pandahub.Enums.{open_, merged, is_pull_request_state, PermissionLevel, write, level_less}
use pandahub.Permissions.{Repository}
use pandahub.Merger.{Pygit, Refs, Sides, merge_commit, get_pr_diff}
use pandahub.Pulls.Store.{PullRequest, PullStore, satisfies_constraints, get_pr_or_404, update_pull}

unfoldable pub source_path : Option Repository → Exec PullStore String
source_path none = raise app_error
source_path (some repo) = pure repo.disk_path

-- The disk path of the repository that the branch comes from.
unfoldable pub source_disk_path : Repository → PullRequest → Exec PullStore String
source_disk_path target_repo pr =
    if pr.source_repository_id == target_repo.id then pure target_repo.disk_path else do
      rows ← query (λ d. select (λ r. r.id == pr.source_repository_id) d.repositories)
      source_repo ← lift (scalar_one_or_none rows)
      source_path source_repo

unfoldable pub sides : Repository → PullRequest → (source_path : String) → Sides
sides target_repo pr source_path = record {
  target_disk_path = target_repo.disk_path;
  source_disk_path = source_path;
  target_branch = pr.target_branch;
  source_branch = pr.source_branch;
}

-- What happens before the merge: the guards, and the two sides.
unfoldable pub prepare_merge :
    Repository → (number : ℕ) → PermissionLevel → Exec PullStore (PullRequest × Sides)
prepare_merge target_repo number actor_permission = do
  or_raise (level_less actor_permission write) permission_denied
  pr ← get_pr_or_404 target_repo.id number
  or_raise (not (is_pull_request_state pr.state open_)) conflict
  path ← source_disk_path target_repo pr
  pure (pr, sides target_repo pr path)

-- `except ConflictError` passes the conflict on; `except Exception` hides every other error.
unfoldable pub merge_error : Error → Error
merge_error conflict = conflict
merge_error _ = app_error

unfoldable pub set_merged : (now actor_id sha : ℕ) → PullRequest → PullRequest
set_merged now actor_id sha pr = record pr {
  state = merged;
  merged_at = some now;
  merged_by_id = some actor_id;
  merge_commit_sha = some sha;
}

-- What happens after the merge.
unfoldable pub record_merge :
    (now actor_id : ℕ) → PullRequest → Result ℕ → Exec PullStore PullRequest
record_merge now actor_id pr (err e) = raise (merge_error e)
record_merge now actor_id pr (ok sha) = do
  modify (update_pull pr.id (set_merged now actor_id sha))
  commit satisfies_constraints
  pure (set_merged now actor_id sha pr)

-- The committer's address, a constant of the call.
abbrev pub merge_email : String
merge_email = "noreply@pandahub.dev"

-- f"Merge pull request #{pr.number} from {pr.source_branch}\n\n{pr.title}"
unfoldable pub commit_msg : PullRequest → String
commit_msg pr =
    concat "Merge pull request #"
      (concat (str pr.number) (concat " from " (concat pr.source_branch (concat "\n\n" pr.title))))

module _ (git : Pygit) where
  unfoldable pub execute_merge :
      (now actor_id : ℕ)
      → (username : String) → Refs
      → Result (PullRequest × Sides)
      → Session PullStore
      → (Result PullRequest × Session PullStore) × Refs
  execute_merge now actor_id username refs (err e) s = ((err e, s), refs)
  execute_merge now actor_id username refs (ok (pr, both)) s =
      let (merged_sha, refs') =
        merge_commit git refs both username merge_email (commit_msg pr) now in
      (record_merge now actor_id pr merged_sha s, refs')

  unfoldable pub merge_pull_request :
      (now : ℕ)
      → Repository
      → (number actor_id : ℕ) → (username : String) → PermissionLevel
      → Refs
      → Session PullStore
      → (Result PullRequest × Session PullStore) × Refs
  merge_pull_request now target_repo number actor_id username actor_permission refs s =
      let (prepared, s') = prepare_merge target_repo number actor_permission s in
      execute_merge now actor_id username refs prepared s'

-- Every error of the diff is reported as an AppError.
unfoldable pub diff_or_error : Result String → Exec PullStore String
diff_or_error (ok text) = pure text
diff_or_error (err e) = raise app_error

unfoldable pub get_pull_request_diff :
    Pygit → Refs → Repository → (number : ℕ) → Exec PullStore String
get_pull_request_diff git refs target_repo number = do
  pr ← get_pr_or_404 target_repo.id number
  path ← source_disk_path target_repo pr
  diff_or_error (get_pr_diff git refs (sides target_repo pr path))
