-- ===== src/Pulls.antt =====
-- backend/app/services/pr_service.py.
-- A service function runs in a request's session; the ids of new rows and the time are arguments.
mod Store
unfoldable pub use Store.*
pub mod Merging
pub mod Valid
pub mod Create
pub mod Update
pub mod Transitions
pub mod MergeLaws
pub mod MergeRuns
pub mod Lists
pub mod Comments
mod Tests
use mathlib.Core.Option.{get_or}
use pandahub.Prelude.{
  ℕ, ◌+◌, Option, none, some, Bool, true, false, not, ◌&&◌, ◌||◌, String, List, [], ◌∷◌, ◌++◌,
  length, is_some, is_some_of, ltb, ◌==◌, if◌then◌else◌,
}
use pandahub.Exceptions.{
  Error.other_exception, Error, Error.not_found, Error.conflict, Error.permission_denied,
  Error.app_error, Result, ok, err,
}
use pandahub.Session.{
  or_raise, Exec, Session, pure, raise, lift, query, or_raise, modify, commit, ◌>>=◌, ◌>>◌,
}
use pandahub.Table.{bad_offset, select, scalar_one_or_none, order_by, paginate}
use pandahub.Enums.{
  PullRequestState, open_, closed, merged, ReviewState, is_pull_request_state, PermissionLevel,
  triage, level_at_least,
}
use pandahub.Permissions.{Repository}

-- The rows of a page, and how many rows there are on all pages.
unfoldable pub list_pull_requests :
    (repo_id : ℕ) → PullRequestState → (page per_page : ℕ) → Exec PullStore (List PullRequest × ℕ)
list_pull_requests repo_id state page per_page = do
  base ← query (λ d.
      select (λ pr. pr.repository_id == repo_id && is_pull_request_state pr.state state)
        d.pull_requests)
  or_raise (bad_offset page per_page) other_exception
  pure (paginate page per_page (order_by (λ a b. ltb b.created_at a.created_at) base), length base)

unfoldable pub new_pull_request :
    (new_id now : ℕ) → Repository → (author_id : ℕ) → PullRequestCreate → (number : ℕ) → PullRequest
new_pull_request new_id now target_repo author_id payload number = record {
  id = new_id;
  repository_id = target_repo.id;
  number = number;
  title = payload.title;
  description = payload.description;
  state = open_;
  author_id = some author_id;
  source_branch = payload.source_branch;
  target_branch = payload.target_branch;
  source_repository_id = get_or payload.source_repository_id target_repo.id;
  is_draft = payload.is_draft;
  merged_at = none;
  merged_by_id = none;
  merge_commit_sha = none;
  closed_at = none;
  created_at = now;
}

unfoldable pub add_pull : PullRequest → PullStore → PullStore
add_pull pr d = record d { pull_requests = d.pull_requests ++ pr ∷ [] }

unfoldable pub create_pull_request :
    (new_id now : ℕ) → Repository → (author_id : ℕ) → PullRequestCreate → Exec PullStore PullRequest
create_pull_request new_id now target_repo author_id payload = do
  let source_repo_id = get_or payload.source_repository_id target_repo.id
  rows ← query (λ d. select (is_open_for target_repo.id source_repo_id payload) d.pull_requests)
  existing ← lift (scalar_one_or_none rows)
  or_raise (is_some existing) conflict
  number ← query (assign_next_number target_repo.id)
  modify (add_pull (new_pull_request new_id now target_repo author_id payload number))
  commit satisfies_constraints
  get_pr_or_404 target_repo.id number

unfoldable pub get_pull_request : (repo_id number : ℕ) → Exec PullStore PullRequest
get_pull_request repo_id number = get_pr_or_404 repo_id number

-- The three assignments that need no permission.
unfoldable pub set_texts : PullRequestUpdate → PullRequest → PullRequest
set_texts payload pr = record pr {
  title = get_or payload.title pr.title;
  description = elim payload.description [ none ↦ pr.description | some d ↦ some d ];
  is_draft = get_or payload.is_draft pr.is_draft;
}

unfoldable pub set_state : (now : ℕ) → PullRequestState → PullRequest → PullRequest
set_state now state pr = record pr {
  state = state;
  closed_at = if is_pull_request_state state closed then some now else none;
}

-- `payload.state is not None and payload.state != pr.state`
unfoldable pub changes_state : PullRequestUpdate → PullRequest → Bool
changes_state payload pr = elim payload.state [
  | none ↦ false
  | some state ↦ not (is_pull_request_state state pr.state)
]

unfoldable pub can_change_state : (actor_id : ℕ) → PermissionLevel → PullRequest → Bool
can_change_state actor_id actor_permission pr =
    is_some_of pr.author_id actor_id || level_at_least actor_permission triage

-- The change of state, on the loaded object.
unfoldable pub change_of_state : (now : ℕ) → PullRequestUpdate → PullRequest → PullRequest
change_of_state now payload pr = elim payload.state [
  | none ↦ pr
  | some state ↦ if is_pull_request_state state pr.state then pr else set_state now state pr
]

unfoldable pub update_pull_request :
    (now repo_id number : ℕ)
    → PullRequestUpdate
    → (actor_id : ℕ) → PermissionLevel
    → Exec PullStore PullRequest
update_pull_request now repo_id number payload actor_id actor_permission = do
  pr ← get_pr_or_404 repo_id number
  modify (update_pull pr.id (set_texts payload))
  or_raise (changes_state payload pr && not (can_change_state actor_id actor_permission pr))
      permission_denied
  modify (update_pull pr.id (change_of_state now payload))
  commit satisfies_constraints
  get_pr_or_404 repo_id number

unfoldable pub create_comment :
    (new_id now repo_id number author_id : ℕ) → (body : String) → Exec PullStore PrComment
create_comment new_id now repo_id number author_id body = do
  pr ← get_pr_or_404 repo_id number
  let comment =
      let c : PrComment = record {
        id = new_id;
        pull_request_id = pr.id;
        author_id = some author_id;
        body = body;
        created_at = now;
      } in
      c
  modify (λ d. record d { comments = d.comments ++ comment ∷ [] })
  commit satisfies_constraints
  pure comment

unfoldable pub list_comments : (repo_id number : ℕ) → Exec PullStore (List PrComment)
list_comments repo_id number = do
  pr ← get_pr_or_404 repo_id number
  rows ← query (λ d. select (λ c. c.pull_request_id == pr.id) d.comments)
  pure (order_by (λ a b. ltb a.created_at b.created_at) rows)

unfoldable pub create_review :
    (new_id repo_id number reviewer_id : ℕ)
    → ReviewState
    → (body : Option String) → Exec PullStore PrReview
create_review new_id repo_id number reviewer_id state body = do
  pr ← get_pr_or_404 repo_id number
  let review =
      let r : PrReview = record {
        id = new_id;
        pull_request_id = pr.id;
        reviewer_id = some reviewer_id;
        state = state;
        body = body;
      } in
      r
  modify (λ d. record d { reviews = d.reviews ++ review ∷ [] })
  commit satisfies_constraints
  pure review
