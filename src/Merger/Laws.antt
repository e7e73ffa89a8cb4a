-- ===== src/Merger/Laws.antt =====
-- merger.py: what a merge does to the refs, and when it is refused.
use text.Mathlib.Text.{◌==◌ as str_eq}
use pandahub.Prelude.{
  ℕ, ◌≡◌, ◌↔◌, inl, inr, some, false, ◌&&◌, String, arith, if◌then◌else◌, Option-cases,
}
use pandahub.Exceptions.{Result-cases, Error, Error.conflict, Result, ok, err}
use pandahub.Merger.{
  Pygit, Refs, Sides, get_branch_commit, fetch_from_fork, source_commit, check_mergeability,
  merge_parents, set_branch, merge_commit_id, merge_commit,
}

module _ (git : Pygit) (refs : Refs) (s : Sides) (name email message : String) (time : ℕ) where
  abbrev outcome : Result ℕ × Refs
  outcome = merge_commit git refs s name email message time

  -- A merge that raises has moved no branch.
  pub merge_commit_error : (e : Error) → outcome.0 ≡ err e → outcome.1 ≡ refs
  unfolding merge_commit
  merge_commit_error e h = ground arith

  -- A merge that succeeds was mergeable; it writes a commit over the tips of both branches and moves
  -- the target branch of the target repository there, and no other branch of any repository.
  pub merge_commit_success :
      (sha : ℕ)
      → outcome.0 ≡ ok sha
      → (target : ℕ) × (source : ℕ) × (refs s.target_disk_path s.target_branch ≡ some target)
        × (source_commit refs s ≡ ok source)
        × ((git.merge_commits target source).conflicts ≡ false)
        × (sha ≡ merge_commit_id git s name email message time target source)
        × ((disk_path branch : String)
            → outcome.1 disk_path branch ≡ (
                if str_eq disk_path s.target_disk_path && str_eq branch s.target_branch
                then some sha
                else refs disk_path branch))
  unfolding merge_commit merge_parents get_branch_commit set_branch
  merge_commit_success sha h = elim (Option-cases (refs s.target_disk_path s.target_branch)) [
    | inl n ↦ ground arith
    | inr (target, t) ↦ elim (Result-cases (source_commit refs s)) [
      | inr (e, x) ↦ ground arith
      | inl (source, x) ↦
          (target, source, t, x, ground arith, ground arith, λ disk_path branch. ground arith)
    ]
  ]

  -- The dry run answers that the branches cannot be merged exactly when the merge raises
  -- ConflictError.
  pub merge_commit-check_mergeability :
      (check_mergeability git refs s ≡ ok false) ↔ (outcome.0 ≡ err conflict)
  unfolding merge_commit merge_parents check_mergeability get_branch_commit source_commit
      fetch_from_fork
  merge_commit-check_mergeability = ground arith
