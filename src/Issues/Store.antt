-- ===== src/Issues/Store.antt =====
-- backend/app/models/issue.py, the payloads of schemas/issue_schema.py, and the queries that
-- issue_service.py sends.
use text.Mathlib.Text.{◌==◌ as str_eq}
use mathlib.Core.Option.{get_or}
use pandahub.Prelude.{
  ℕ, ◌+◌, Option, none, some, Bool, true, ◌&&◌, String, List, map, any, all, ◌==◌,
}
use pandahub.Exceptions.{Error.not_found}
use pandahub.Session.{Exec, query, lift, raise, pure, ◌>>=◌}
use pandahub.Table.{select, scalar_one_or_none, update_where, unique, max_of}
use pandahub.Enums.{IssueState, MilestoneState}

pub record Label : Type 0 where
  pub id : ℕ
  pub repository_id : ℕ
  pub name : String
  pub color : String
  pub description : Option String

pub record Milestone : Type 0 where
  pub id : ℕ
  pub repository_id : ℕ
  pub title : String
  pub description : Option String
  pub due_date : Option ℕ
  pub state : MilestoneState

pub record Issue : Type 0 where
  pub id : ℕ
  pub repository_id : ℕ
  pub number : ℕ
  pub title : String
  pub description : Option String
  pub state : IssueState
  pub author_id : Option ℕ
  pub milestone_id : Option ℕ
  pub is_locked : Bool
  pub closed_at : Option ℕ
  pub created_at : ℕ

pub record IssueLabel : Type 0 where
  pub issue_id : ℕ
  pub label_id : ℕ

pub record IssueAssignee : Type 0 where
  pub issue_id : ℕ
  pub user_id : ℕ

pub record IssueComment : Type 0 where
  pub id : ℕ
  pub issue_id : ℕ
  pub author_id : Option ℕ
  pub body : String
  pub created_at : ℕ

pub record LabelCreate : Type 0 where
  pub name : String
  pub color : String
  pub description : Option String

pub record LabelUpdate : Type 0 where
  pub name : Option String
  pub color : Option String
  pub description : Option String

pub record MilestoneCreate : Type 0 where
  pub title : String
  pub description : Option String
  pub due_date : Option ℕ

-- A field that the client did not send is `none`, one that it sent as null is `some none`.
pub record MilestoneUpdate : Type 0 where
  pub title : Option (Option String)
  pub description : Option (Option String)
  pub due_date : Option (Option ℕ)
  pub state : Option (Option MilestoneState)

pub record IssueCreate : Type 0 where
  pub title : String
  pub description : Option String
  pub label_ids : List ℕ
  pub assignee_ids : List ℕ
  pub milestone_id : Option ℕ

pub record IssueUpdate : Type 0 where
  pub title : Option String
  pub description : Option String
  pub state : Option IssueState
  pub label_ids : Option (List ℕ)
  pub assignee_ids : Option (List ℕ)
  pub milestone_id : Option ℕ
  pub is_locked : Option Bool

-- The tables that the service reads and writes; of the users only the ids matter.
pub record IssueStore : Type 0 where
  pub issues : List Issue
  pub issue_labels : List IssueLabel
  pub issue_assignees : List IssueAssignee
  pub comments : List IssueComment
  pub labels : List Label
  pub milestones : List Milestone
  pub user_ids : List ℕ

unfoldable pub same_issue : Issue → Issue → Bool
same_issue a b = a.id == b.id

-- uq_issue_number_per_repo
unfoldable pub same_issue_number : Issue → Issue → Bool
same_issue_number a b = a.repository_id == b.repository_id && a.number == b.number

-- uq_label_per_repo
unfoldable pub same_label_name : Label → Label → Bool
same_label_name a b = a.repository_id == b.repository_id && str_eq a.name b.name

-- The primary keys of the association tables.
unfoldable pub same_issue_label : IssueLabel → IssueLabel → Bool
same_issue_label a b = a.issue_id == b.issue_id && a.label_id == b.label_id

unfoldable pub same_assignee : IssueAssignee → IssueAssignee → Bool
same_assignee a b = a.issue_id == b.issue_id && a.user_id == b.user_id

-- The foreign keys that a payload can break.
unfoldable pub has_user : List ℕ → IssueAssignee → Bool
has_user user_ids a = any (λ u. u == a.user_id) user_ids

unfoldable pub has_milestone : List Milestone → Issue → Bool
has_milestone milestones issue = elim issue.milestone_id [
  | none ↦ true
  | some m ↦ any (λ r. r.id == m) milestones
]

unfoldable pub issues_valid : IssueStore → Bool
issues_valid d =
    unique same_issue d.issues
    && (unique same_issue_number d.issues && all (has_milestone d.milestones) d.issues)

unfoldable pub links_valid : IssueStore → Bool
links_valid d =
    unique same_issue_label d.issue_labels
    && (unique same_assignee d.issue_assignees && all (has_user d.user_ids) d.issue_assignees)

-- The constraints that the database checks when it commits.
unfoldable pub satisfies_constraints : IssueStore → Bool
satisfies_constraints d = issues_valid d && (links_valid d && unique same_label_name d.labels)

unfoldable pub has_number : (repo_id number : ℕ) → Issue → Bool
has_number repo_id number issue = issue.repository_id == repo_id && issue.number == number

unfoldable pub in_repository : ℕ → Issue → Bool
in_repository repo_id issue = issue.repository_id == repo_id

-- (max_number or 0) + 1
unfoldable pub assign_next_number : ℕ → IssueStore → ℕ
assign_next_number repo_id d =
    get_or (max_of (map (λ issue. issue.number) (select (in_repository repo_id) d.issues))) 0 + 1

unfoldable pub found_or_404 : {A : Type 0} → Option A → Exec IssueStore A
found_or_404 none = raise not_found
found_or_404 (some row) = pure row

unfoldable pub get_issue_or_404 : (repo_id number : ℕ) → Exec IssueStore Issue
get_issue_or_404 repo_id number = do
  rows ← query (λ d. select (has_number repo_id number) d.issues)
  found ← lift (scalar_one_or_none rows)
  found_or_404 found

-- UPDATE issues SET … WHERE id: what a flush of a changed object sends.
unfoldable pub update_row : ℕ → (Issue → Issue) → IssueStore → IssueStore
update_row id change d = record d {
  issues = update_where (λ issue. issue.id == id) change d.issues;
}
