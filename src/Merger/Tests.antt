-- ===== src/Merger/Tests.antt =====
-- A repository with two branches, and the theorems on their merge.
use text.Mathlib.Text.{◌==◌ as str_eq}
use pandahub.Prelude.{◌+◌, ◌≡◌, refl, none, some, true, false, String, ◌==◌, if◌then◌else◌}
use pandahub.Exceptions.{ok}
use pandahub.Merger.{
  Pygit, Refs, Sides, merge_commit, merge_parents, get_branch_commit, source_commit,
  fetch_from_fork, merge_commit_id, check_mergeability, set_branch,
}

-- A merge of two commits is without conflict if the second number is larger.
abbrev pub git : Pygit
git = record {
  merge_commits = λ ours theirs. record {
    conflicts = if ours == theirs then true else false;
    tree = ours + theirs;
  };
  commit_id = λ name email message time tree first second. tree + 1000;
  merge_base = λ a b. none;
  patch = λ a b. "patch";
}

abbrev pub refs : Refs
refs disk_path branch =
    if str_eq branch "main" then some 1 else (if str_eq branch "feature" then some 2 else none)

program : Unit {0}
unfolding merge_commit merge_parents get_branch_commit source_commit fetch_from_fork merge_commit_id
    check_mergeability set_branch
program = tt

abbrev both : String → Sides
both branch = record {
  target_disk_path = "/data/7.git";
  source_disk_path = "/data/7.git";
  target_branch = "main";
  source_branch = branch;
}

commit_feature : (merge_commit git refs (both "feature") "panda" "p@x" "m" 90).0 ≡ ok 1003
unfolding program
commit_feature = refl
