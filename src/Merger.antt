-- ===== src/Merger.antt =====
-- backend/app/git_engine/merger.py. pygit2 is a parameter: the operations that the merger calls,
-- on object ids. The state is the branch refs of every repository on disk.
pub mod Laws
pub mod Tests
use text.Mathlib.Text.{◌==◌ as str_eq}
use pandahub.Prelude.{ℕ, Option, none, some, Bool, true, false, not, ◌&&◌, String, if◌then◌else◌}
use pandahub.Exceptions.{Error.app_error, Error.conflict, Error.git_library, Result, ok, err, ◌>>=◌}

-- What `merge_commits` computes in memory.
pub record MergeIndex : Type 0 where
  pub conflicts : Bool
  pub tree : ℕ

pub record Pygit : Type 0 where
  -- Repository.merge_commits(ours, theirs), with the tree that `write_tree` would write
  pub merge_commits : (ours theirs : ℕ) → MergeIndex
  -- Repository.create_commit: the id of a commit with a tree, a message and two parents
  pub commit_id : (name email message : String) (time tree first second : ℕ) → ℕ
  pub merge_base : ℕ → ℕ → Option ℕ
  -- the patch between the trees of two commits
  pub patch : (old new : ℕ) → String

-- The commit that a branch of the repository at a disk path points to.
abbrev pub Refs : Type 0
Refs = (disk_path branch : String) → Option ℕ

-- The two sides of a merge, as the callers pass them.
pub record Sides : Type 0 where
  pub target_disk_path : String
  pub source_disk_path : String
  pub target_branch : String
  pub source_branch : String

-- `lookup_branch` and `peel`
unfoldable pub get_branch_commit : Refs → (disk_path branch : String) → Result ℕ
get_branch_commit refs disk_path branch = elim (refs disk_path branch) [
  | none ↦ err app_error
  | some commit ↦ ok commit
]

-- A fetch of a branch that the fork lacks is an error of pygit2. The remote is removed again.
unfoldable pub fetch_from_fork : Refs → (source_disk_path source_branch : String) → Result ℕ
fetch_from_fork refs source_disk_path source_branch = elim (refs source_disk_path source_branch) [
  | none ↦ err git_library
  | some commit ↦ ok commit
]

unfoldable pub source_commit : Refs → Sides → Result ℕ
source_commit refs s =
    if str_eq s.target_disk_path s.source_disk_path
    then get_branch_commit refs s.target_disk_path s.source_branch
    else fetch_from_fork refs s.source_disk_path s.source_branch

module _ (git : Pygit) where
  unfoldable pub check_mergeability : Refs → Sides → Result Bool
  check_mergeability refs s = do
    target ← get_branch_commit refs s.target_disk_path s.target_branch
    source ← source_commit refs s
    ok (not (git.merge_commits target source).conflicts)

  unfoldable pub get_pr_diff : Refs → Sides → Result String
  get_pr_diff refs s = do
    target ← get_branch_commit refs s.target_disk_path s.target_branch
    source ← source_commit refs s
    ok (elim (git.merge_base target source) [
      | none ↦ git.patch target source
      | some base ↦ git.patch base source
    ])

  -- The ids of the commits that are merged, unless they conflict.
  unfoldable pub merge_parents : Refs → Sides → Result (ℕ × ℕ)
  merge_parents refs s = do
    target ← get_branch_commit refs s.target_disk_path s.target_branch
    source ← source_commit refs s
    if (git.merge_commits target source).conflicts then err conflict else ok (target, source)

  -- The refs after `create_commit` has moved a branch.
  unfoldable pub set_branch : Refs → (disk_path branch : String) → ℕ → Refs
  set_branch refs disk_path branch commit d b =
      if str_eq d disk_path && str_eq b branch then some commit else refs d b

  unfoldable pub merge_commit_id : Sides → (name email message : String) → (time : ℕ) → ℕ → ℕ → ℕ
  merge_commit_id s name email message time target source =
      git.commit_id name email message time (git.merge_commits target source).tree target source

  -- The new commit's id, and the refs afterwards.
  unfoldable pub merge_commit :
      Refs → Sides → (name email message : String) → (time : ℕ) → Result ℕ × Refs
  merge_commit refs s name email message time = elim (merge_parents refs s) [
    | err e ↦ (err e, refs)
    | ok (target, source) ↦
        let commit = merge_commit_id s name email message time target source in
        (ok commit, set_branch refs s.target_disk_path s.target_branch commit)
  ]
