-- ===== src/Pulls/MergeRuns.antt =====
-- pr_service.py: a merge that nothing forbids goes through.
use text.Mathlib.TextPositions.{eq_refl}
use pandahub.Prelude.{ℕ, ◌≡◌, refl, some, true, false, String, arith, ==_refl}
use pandahub.Exceptions.{ok}
use pandahub.Table.{scalar_one_or_none}
use pandahub.Table.Laws.{In}
use pandahub.Enums.{open_, write, level_less}
use pandahub.Permissions.{Repository}
use pandahub.Merger.{
  Pygit, Refs, get_branch_commit, source_commit, merge_parents, set_branch, merge_commit_id,
  merge_commit,
}
use pandahub.Pulls.Store.{
  has_user, PullRequest, PullStore, satisfies_constraints, found_or_404, get_pr_or_404, update_pull,
}
use pandahub.Pulls.Merging.{
  commit_msg, merge_email, source_disk_path, sides, prepare_merge, set_merged, record_merge,
  execute_merge, merge_pull_request,
}
use pandahub.Pulls.Valid.{IsValid, select-number}
use pandahub.Pulls.MergeLaws.{start, merged_constraints}

module _ (git : Pygit) (now actor_id : ℕ) (username : String) (refs : Refs) (d : PullStore)
    (v : IsValid d) (repo : Repository) (pr : PullRequest) (i : In pr d.pull_requests)
    (here : pr.repository_id ≡ repo.id) (own : pr.source_repository_id ≡ repo.id)
    (open_before : pr.state ≡ open_) (known : has_user d.users actor_id ≡ true) where
  prepared :
      prepare_merge repo pr.number write (start d)
      ≡ (ok (pr, sides repo pr repo.disk_path), start d)
  unfolding prepare_merge get_pr_or_404 found_or_404 scalar_one_or_none source_disk_path level_less
  prepared = rw (← here) (
      rw (select-number d pr v.constraints i) (rw open_before (rw own (rw here (rw ==_refl refl)))))

  module _ (target source : ℕ) (target_tip : refs repo.disk_path pr.target_branch ≡ some target)
      (source_tip : refs repo.disk_path pr.source_branch ≡ some source)
      (clean : (git.merge_commits target source).conflicts ≡ false) where
    abbrev sha : ℕ
    sha =
        merge_commit_id git (sides repo pr repo.disk_path) username merge_email (commit_msg pr) now
          target source

    parents : merge_parents git refs (sides repo pr repo.disk_path) ≡ ok (target, source)
    unfolding merge_parents get_branch_commit source_commit sides
    parents = ground (arith, eq_refl repo.disk_path)

    commit_made :
        merge_commit git refs
          (sides repo pr repo.disk_path)
          username
          merge_email
          (commit_msg pr)
          now
        ≡ (ok sha, set_branch git refs repo.disk_path pr.target_branch sha)
    unfolding merge_commit sides
    commit_made = ground (arith, parents)

    stored_valid : satisfies_constraints (update_pull pr.id (set_merged now actor_id sha) d) ≡ true
    stored_valid = merged_constraints now actor_id sha pr.id d known v.constraints

    -- On valid rows, an open pull request between two existing branches of the repository that do
    -- not conflict is merged for a stored caller with the level WRITE: the merge commit becomes the tip
    -- of the target branch, and the row that is stored and returned is marked as merged with it.
    pub merge_pull_request_runs :
        merge_pull_request git now repo pr.number actor_id username write refs (start d) ≡ (
          (
            ok (set_merged now actor_id sha pr),
            start (update_pull pr.id (set_merged now actor_id sha) d),
          ),
          set_branch git refs repo.disk_path pr.target_branch sha,
        )
    unfolding merge_pull_request execute_merge record_merge
    merge_pull_request_runs = rw prepared (rw commit_made (rw stored_valid refl))
