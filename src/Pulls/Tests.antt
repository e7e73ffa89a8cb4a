-- ===== src/Pulls/Tests.antt =====
-- A repository with two pull requests, and the theorems on it.
use pandahub.Prelude.{◌≡◌, ◌≢◌, ◌⊎◌, refl, inl, none, some, true, false, not, ◌&&◌, String, [], ◌∷◌}
use pandahub.Exceptions.{Error.conflict, Error.integrity, Result, ok, err}
use pandahub.Session.{Session, run}
use pandahub.Enums.{
  PullRequestState, open_, closed, merged, PermissionLevel, read, write, admin, public, level_less,
  level_at_least,
}
use pandahub.Table.{select, scalar_one_or_none, update_where, unique, max_of}
use pandahub.Permissions.{Repository}
use pandahub.Merger.{
  Refs, merge_commit, merge_parents, get_branch_commit, source_commit, fetch_from_fork,
  merge_commit_id, check_mergeability, set_branch,
}
use pandahub.Merger.Tests.{git, refs}
use pandahub.Pulls.Store.{
  has_target, has_user, null_or_user, has_author, has_merger, people_valid, PullRequest,
  PullRequestCreate, PullRequestUpdate, PullStore, same_number, same_id, has_source,
  satisfies_constraints, has_number, in_repository, assign_next_number, found_or_404, get_pr_or_404,
  is_open_for, update_pull,
}
use pandahub.Pulls.Merging.{
  source_path, source_disk_path, sides, prepare_merge, merge_error, set_merged, record_merge,
  execute_merge, merge_pull_request,
}
use pandahub.Pulls.{
  new_pull_request, add_pull, create_pull_request, set_texts, set_state, changes_state,
  can_change_state, change_of_state, update_pull_request,
}
use pandahub.Pulls.Valid.{IsValid}
use pandahub.Pulls.Create.{open_pulls, CanAdd}
use pandahub.Pulls.Transitions.{update_pull_request-IsValid}
use pandahub.Pulls.MergeLaws.{
  start, MovedOnly, merge_pull_request_error, Success, merge_pull_request-Success,
  merge_pull_request-IsValid,
}
use pandahub.Pulls.MergeRuns.{merge_pull_request_runs}

abbrev site : Repository
site = record {
  id = 7;
  owner_user_id = some 10;
  owner_organization_id = none;
  name = "site";
  visibility = public;
  disk_path = "/data/7.git";
}

abbrev feature : PullRequest
feature = record {
  id = 100;
  repository_id = 7;
  number = 1;
  title = "Feature";
  description = none;
  state = open_;
  author_id = some 20;
  source_branch = "feature";
  target_branch = "main";
  source_repository_id = 7;
  is_draft = false;
  merged_at = none;
  merged_by_id = none;
  merge_commit_sha = none;
  closed_at = none;
  created_at = 50;
}

abbrev fix : PullRequest
fix = record feature {
  id = 101;
  number = 2;
  title = "Fix";
  source_branch = "fix";
  state = closed;
  closed_at = some 60;
  created_at = 55;
}

abbrev store : PullStore
store = record {
  pull_requests = feature ∷ fix ∷ [];
  comments = [];
  reviews = [];
  repositories = site ∷ [];
  users = record { id = 20 } ∷ record { id = 30 } ∷ [];
}

abbrev payload : String → PullRequestCreate
payload branch = record {
  title = "More";
  description = none;
  source_branch = branch;
  target_branch = "main";
  source_repository_id = none;
  is_draft = true;
}

abbrev to_state : PullRequestState → PullRequestUpdate
to_state state = record {
  title = some "Renamed";
  description = none;
  state = some state;
  is_draft = none;
}

program : Unit {0}
unfolding has_target has_user null_or_user has_author has_merger people_valid create_pull_request
    get_pr_or_404 found_or_404 scalar_one_or_none select update_where unique max_of
    assign_next_number in_repository is_open_for has_number same_number same_id has_source
    satisfies_constraints new_pull_request add_pull update_pull update_pull_request set_texts
    set_state changes_state can_change_state change_of_state level_at_least level_less
    merge_pull_request execute_merge prepare_merge source_disk_path source_path sides merge_error
    set_merged record_merge merge_commit merge_parents get_branch_commit source_commit
    fetch_from_fork merge_commit_id check_mergeability set_branch
program = tt

store-IsValid : IsValid store
unfolding program
store-IsValid = record { constraints = refl; closing_times = (refl, (refl, tt)) }

known_panda : has_user store.users 30 ≡ true
unfolding program
known_panda = refl

can_add : CanAdd 102 70 site 20 (payload "more") store
unfolding program
can_add = record { fresh = refl; source = refl; target = refl; author = refl }

no_open : open_pulls 102 70 site 20 (payload "more") store ≡ []
unfolding program
no_open = refl

one_open : open_pulls 102 70 site 20 (payload "feature") store ≡ feature ∷ []
unfolding program
one_open = refl

create_runs : run (create_pull_request 102 70 site 20 (payload "more")) store ≡ (
  ok (new_pull_request 102 70 site 20 (payload "more") 3),
  add_pull (new_pull_request 102 70 site 20 (payload "more") 3) store,
)
unfolding program
create_runs = refl

stranger_closes : changes_state (to_state closed) feature ≡ true
unfolding program
stranger_closes = refl

stranger_cannot : can_change_state 21 read feature ≡ false
unfolding program
stranger_cannot = refl

author_may :
    (changes_state (to_state closed) feature && not (can_change_state 20 read feature)) ≡ false
unfolding program
author_may = refl

update_pull_request-IsValid_example :
    IsValid (run (update_pull_request 80 7 1 (to_state closed) 20 read) store).1
update_pull_request-IsValid_example =
    update_pull_request-IsValid 80 store store-IsValid (to_state closed) 20 read 7 1

abbrev merge_by : PermissionLevel → (Result PullRequest × Session PullStore) × Refs
merge_by level = merge_pull_request git 90 site 1 30 "panda" level refs (start store)

abbrev merged_feature : PullRequest
merged_feature = record feature {
  state = merged;
  merged_at = some 90;
  merged_by_id = some 30;
  merge_commit_sha = some 1003;
}

merge_runs : (merge_by write).0.0 ≡ ok merged_feature
unfolding program
merge_runs = refl

-- The user 31 is not stored: the branch has the merge commit, and the rows are as they were.
abbrev merge_by_unknown : (Result PullRequest × Session PullStore) × Refs
merge_by_unknown = merge_pull_request git 90 site 1 31 "panda" write refs (start store)

unknown_merges :
    (merge_by_unknown.0.0 ≡ err integrity)
    × (merge_by_unknown.0.1.committed ≡ store)
    × (merge_by_unknown.1 "/data/7.git" "main" ≡ some 1003)
unfolding program
unknown_merges = (refl, refl, refl)

merge_again :
    (merge_pull_request git 90 site 2 30 "panda" write refs (start store)).0.0 ≡ err conflict
unfolding program
merge_again = refl

admin-ne-write : ◌≢◌ {A = PermissionLevel} admin write
admin-ne-write e = cc

merge_pull_request_error_example :
    ((merge_pull_request git 90 site 2 30 "panda" write refs (start store)).0.1.committed ≡ store)
    × (((merge_pull_request git 90 site 2 30 "panda" write refs (start store)).1 ≡ refs)
        ⊎ MovedOnly git 90 30 "panda" refs store
            (prepare_merge site 2 write (start store)).0
            conflict
            (merge_pull_request git 90 site 2 30 "panda" write refs (start store)).1)
    × (has_user store.users 30 ≡ true
        → (merge_pull_request git 90 site 2 30 "panda" write refs (start store)).1 ≡ refs)
merge_pull_request_error_example =
    merge_pull_request_error git 90 site 2 30 "panda" write refs store conflict store-IsValid
      merge_again

merge_pull_request_runs_example : merge_by write ≡ (
  (ok (set_merged 90 30 1003 feature), start (update_pull 100 (set_merged 90 30 1003) store)),
  set_branch git refs "/data/7.git" "main" 1003,
)
unfolding merge_commit_id
merge_pull_request_runs_example =
    merge_pull_request_runs git 90 30 "panda" refs store store-IsValid site feature (inl refl) refl
      refl refl known_panda 1 2 refl refl refl

merge_pull_request-Success_example :
    Success git 90 site 1 30 "panda" write refs store merged_feature
merge_pull_request-Success_example =
    merge_pull_request-Success git 90 site 1 30 "panda" write refs store merged_feature
      store-IsValid merge_runs

merge_pull_request-IsValid_example : IsValid (merge_by write).0.1.committed
merge_pull_request-IsValid_example =
    merge_pull_request-IsValid git 90 site 1 30 "panda" write refs store store-IsValid
