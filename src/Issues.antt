-- ===== src/Issues.antt =====
-- backend/app/services/issue_service.py: issues. Labels, milestones and comments are children.
mod Store
unfoldable pub use Store.*
pub mod Valid
pub mod Create
pub mod Update
pub mod Rights
pub mod Close
pub mod Lists
pub mod Comments
pub mod Labels
pub mod Milestones
mod Tests
use mathlib.Core.Option.{get_or}
use pandahub.Prelude.{
  ℕ, ◌+◌, Option, none, some, Bool, true, false, not, ◌&&◌, ◌||◌, String, List, [], ◌∷◌, ◌++◌, map,
  any, length, is_some, is_some_of, ltb, ◌==◌, if◌then◌else◌,
}
use pandahub.Exceptions.{
  Error, Error.not_found, Error.permission_denied, Error.other_exception, Result, ok, err,
}
use pandahub.Session.{
  Exec, Session, pure, raise, lift, query, or_raise, modify, commit, ◌>>=◌, ◌>>◌,
}
use pandahub.Table.{bad_offset, select, delete_where, scalar_one_or_none, order_by, paginate}
use pandahub.Enums.{
  IssueState, open_, closed, is_issue_state, PermissionLevel, triage, level_at_least, level_less,
}

-- The filters of a listing.
pub record Filters : Type 0 where
  pub state : IssueState
  pub label_ids : List ℕ
  pub assignee_id : Option ℕ
  pub milestone_id : Option ℕ

unfoldable pub assigned_to : IssueStore → Option ℕ → Issue → Bool
assigned_to d none issue = true
assigned_to d (some user) issue =
    any (λ a. a.issue_id == issue.id && a.user_id == user) d.issue_assignees

unfoldable pub planned_for : Option ℕ → Issue → Bool
planned_for none issue = true
planned_for (some milestone) issue = is_some_of issue.milestone_id milestone

unfoldable pub has_label : IssueStore → ℕ → Issue → Bool
has_label d label issue = any (λ l. l.issue_id == issue.id && l.label_id == label) d.issue_labels

unfoldable pub base_filter : IssueStore → (repo_id : ℕ) → Filters → Issue → Bool
base_filter d repo_id f issue =
    issue.repository_id == repo_id
    && (is_issue_state issue.state f.state
        && (assigned_to d f.assignee_id issue && planned_for f.milestone_id issue))

-- The rows of the query. Every label joins the table `issue_labels` once more under its own name,
-- and PostgreSQL refuses a query that names a table twice.
unfoldable pub filtered : IssueStore → (repo_id : ℕ) → Filters → List ℕ → Result (List Issue)
filtered d repo_id f [] = ok (select (base_filter d repo_id f) d.issues)
filtered d repo_id f (label ∷ []) =
    ok (select (λ issue. base_filter d repo_id f issue && has_label d label issue) d.issues)
filtered d repo_id f (label ∷ other ∷ more) = err other_exception

unfoldable pub list_issues :
    (repo_id : ℕ) → Filters → (page per_page : ℕ) → Exec IssueStore (List Issue × ℕ)
list_issues repo_id f page per_page = do
  d ← query (λ d. d)
  base ← lift (filtered d repo_id f f.label_ids)
  or_raise (bad_offset page per_page) other_exception
  pure (paginate page per_page (order_by (λ a b. ltb b.created_at a.created_at) base), length base)

unfoldable pub new_issue : (new_id now repo_id author_id : ℕ) → IssueCreate → (number : ℕ) → Issue
new_issue new_id now repo_id author_id payload number = record {
  id = new_id;
  repository_id = repo_id;
  number = number;
  title = payload.title;
  description = payload.description;
  state = open_;
  author_id = some author_id;
  milestone_id = payload.milestone_id;
  is_locked = false;
  closed_at = none;
  created_at = now;
}

-- The ids in the payload that are labels of the repository, in the order of the table.
unfoldable pub valid_labels : IssueStore → (repo_id : ℕ) → List ℕ → List ℕ
valid_labels d repo_id label_ids =
    map (λ l. l.id)
      (select (λ l. any (λ i. i == l.id) label_ids && l.repository_id == repo_id) d.labels)

unfoldable pub add_labels : (issue_id repo_id : ℕ) → List ℕ → IssueStore → IssueStore
add_labels issue_id repo_id label_ids d = record d {
  issue_labels =
      d.issue_labels
      ++ map (λ l. record { issue_id = issue_id; label_id = l }) (valid_labels d repo_id label_ids);
}

unfoldable pub add_assignees : (issue_id : ℕ) → List ℕ → IssueStore → IssueStore
add_assignees issue_id user_ids d = record d {
  issue_assignees =
      d.issue_assignees ++ map (λ u. record { issue_id = issue_id; user_id = u }) user_ids;
}

unfoldable pub add_issue : Issue → IssueStore → IssueStore
add_issue issue d = record d { issues = d.issues ++ issue ∷ [] }

unfoldable pub create_issue :
    (new_id now repo_id author_id : ℕ) → IssueCreate → Exec IssueStore Issue
create_issue new_id now repo_id author_id payload = do
  number ← query (assign_next_number repo_id)
  modify (add_issue (new_issue new_id now repo_id author_id payload number))
  modify (add_labels new_id repo_id payload.label_ids)
  modify (add_assignees new_id payload.assignee_ids)
  commit satisfies_constraints
  get_issue_or_404 repo_id number

unfoldable pub get_issue : (repo_id number : ℕ) → Exec IssueStore Issue
get_issue repo_id number = get_issue_or_404 repo_id number

unfoldable pub set_texts : IssueUpdate → Issue → Issue
set_texts payload issue = record issue {
  title = get_or payload.title issue.title;
  description = elim payload.description [ none ↦ issue.description | some d ↦ some d ];
}

unfoldable pub changes_state : IssueUpdate → Issue → Bool
changes_state payload issue = elim payload.state [
  | none ↦ false
  | some state ↦ not (is_issue_state state issue.state)
]

unfoldable pub can_change_state : (actor_id : ℕ) → PermissionLevel → Issue → Bool
can_change_state actor_id actor_permission issue =
    is_some_of issue.author_id actor_id || level_at_least actor_permission triage

unfoldable pub set_state : (now : ℕ) → IssueState → Issue → Issue
set_state now state issue = record issue {
  state = state;
  closed_at = if is_issue_state state closed then some now else none;
}

unfoldable pub change_of_state : (now : ℕ) → IssueUpdate → Issue → Issue
change_of_state now payload issue = elim payload.state [
  | none ↦ issue
  | some state ↦ if is_issue_state state issue.state then issue else set_state now state issue
]

unfoldable pub set_lock_and_milestone : IssueUpdate → Issue → Issue
set_lock_and_milestone payload issue = record issue {
  is_locked = get_or payload.is_locked issue.is_locked;
  milestone_id = elim payload.milestone_id [ none ↦ issue.milestone_id | some m ↦ some m ];
}

-- Full replacement, if the payload has labels.
unfoldable pub replace_labels : (issue_id repo_id : ℕ) → Option (List ℕ) → IssueStore → IssueStore
replace_labels issue_id repo_id none d = d
replace_labels issue_id repo_id (some label_ids) d =
    add_labels issue_id repo_id label_ids
      (record d { issue_labels = delete_where (λ l. l.issue_id == issue_id) d.issue_labels })

unfoldable pub replace_assignees : (issue_id : ℕ) → Option (List ℕ) → IssueStore → IssueStore
replace_assignees issue_id none d = d
replace_assignees issue_id (some user_ids) d =
    add_assignees issue_id user_ids
      (record d { issue_assignees = delete_where (λ a. a.issue_id == issue_id) d.issue_assignees })

unfoldable pub update_issue :
    (now repo_id number : ℕ)
    → IssueUpdate
    → (actor_id : ℕ) → PermissionLevel
    → Exec IssueStore Issue
update_issue now repo_id number payload actor_id actor_permission = do
  issue ← get_issue_or_404 repo_id number
  modify (update_row issue.id (set_texts payload))
  or_raise (changes_state payload issue && not (can_change_state actor_id actor_permission issue))
      permission_denied
  modify (update_row issue.id (change_of_state now payload))
  or_raise (is_some payload.is_locked && level_less actor_permission triage) permission_denied
  modify (update_row issue.id (set_lock_and_milestone payload))
  modify (replace_labels issue.id repo_id payload.label_ids)
  modify (replace_assignees issue.id payload.assignee_ids)
  commit satisfies_constraints
  get_issue_or_404 repo_id number

-- The rows that the ORM's cascades delete with an issue.
unfoldable pub remove_issue : ℕ → IssueStore → IssueStore
remove_issue id d = record d {
  issues = delete_where (λ issue. issue.id == id) d.issues;
  issue_labels = delete_where (λ l. l.issue_id == id) d.issue_labels;
  issue_assignees = delete_where (λ a. a.issue_id == id) d.issue_assignees;
  comments = delete_where (λ c. c.issue_id == id) d.comments;
}

unfoldable pub delete_issue : (repo_id number : ℕ) → Exec IssueStore (Unit {0})
delete_issue repo_id number = do
  issue ← get_issue_or_404 repo_id number
  modify (remove_issue issue.id)
  commit satisfies_constraints

-- IssueUpdate(state=…)
unfoldable pub only_state : IssueState → IssueUpdate
only_state state = record {
  title = none;
  description = none;
  state = some state;
  label_ids = none;
  assignee_ids = none;
  milestone_id = none;
  is_locked = none;
}

unfoldable pub close_issue :
    (now repo_id number actor_id : ℕ) → PermissionLevel → Exec IssueStore Issue
close_issue now repo_id number actor_id actor_permission =
    update_issue now repo_id number (only_state closed) actor_id actor_permission

unfoldable pub reopen_issue :
    (now repo_id number actor_id : ℕ) → PermissionLevel → Exec IssueStore Issue
reopen_issue now repo_id number actor_id actor_permission =
    update_issue now repo_id number (only_state open_) actor_id actor_permission
