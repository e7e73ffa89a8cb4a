-- ===== src/Issues/Comments.antt =====
-- issue_service.py: the comments of issues.
pub mod Laws
use pandahub.Prelude.{
  ℕ, Option, none, some, Bool, true, false, not, ◌&&◌, String, List, [], ◌∷◌, ◌++◌, length, ltb,
  is_some_of, ◌==◌, if◌then◌else◌,
}
use pandahub.Exceptions.{Error.other_exception, Error.permission_denied, Result, ok, err}
use pandahub.Session.{Exec, pure, lift, query, or_raise, modify, commit, ◌>>=◌, ◌>>◌}
use pandahub.Table.{
  bad_offset, select, update_where, delete_where, scalar_one_or_none, order_by, paginate,
}
use pandahub.Enums.{PermissionLevel, write, level_less}
use pandahub.Issues.Store.{
  Issue, IssueComment, IssueStore, satisfies_constraints, found_or_404, get_issue_or_404,
}

-- The comments of the issue, whose id a subquery finds again.
unfoldable pub list_comments :
    (repo_id number page per_page : ℕ) → Exec IssueStore (List IssueComment × ℕ)
list_comments repo_id number page per_page = do
  issue ← get_issue_or_404 repo_id number
  rows ← query (λ d. select (λ c. c.issue_id == issue.id) d.comments)
  or_raise (bad_offset page per_page) other_exception
  pure (paginate page per_page (order_by (λ a b. ltb a.created_at b.created_at) rows), length rows)

unfoldable pub new_comment : (new_id now issue_id author_id : ℕ) → (body : String) → IssueComment
new_comment new_id now issue_id author_id body = record {
  id = new_id;
  issue_id = issue_id;
  author_id = some author_id;
  body = body;
  created_at = now;
}

unfoldable pub create_comment :
    (new_id now repo_id number author_id : ℕ) → (body : String) → Exec IssueStore IssueComment
create_comment new_id now repo_id number author_id body = do
  issue ← get_issue_or_404 repo_id number
  or_raise issue.is_locked permission_denied
  modify (λ d. record d {
    comments = d.comments ++ new_comment new_id now issue.id author_id body ∷ [];
  })
  commit satisfies_constraints
  pure (new_comment new_id now issue.id author_id body)

-- The comment with the id on the issue.
unfoldable pub find_comment : (issue_id comment_id : ℕ) → Exec IssueStore IssueComment
find_comment issue_id comment_id = do
  rows ← query (λ d. select (λ c. c.id == comment_id && c.issue_id == issue_id) d.comments)
  found ← lift (scalar_one_or_none rows)
  found_or_404 found

-- `comment.author_id != actor.id and actor_permission < PermissionLevel.WRITE`
unfoldable pub may_not_touch : (actor_id : ℕ) → PermissionLevel → IssueComment → Bool
may_not_touch actor_id actor_permission comment =
    not (is_some_of comment.author_id actor_id) && level_less actor_permission write

unfoldable pub set_body : (body : String) → IssueComment → IssueComment
set_body body comment = record comment { body = body }

unfoldable pub update_comment :
    (repo_id number comment_id actor_id : ℕ)
    → PermissionLevel
    → (body : String) → Exec IssueStore IssueComment
update_comment repo_id number comment_id actor_id actor_permission body = do
  issue ← get_issue_or_404 repo_id number
  comment ← find_comment issue.id comment_id
  or_raise (may_not_touch actor_id actor_permission comment) permission_denied
  modify (λ d. record d {
    comments = update_where (λ c. c.id == comment.id) (set_body body) d.comments;
  })
  commit satisfies_constraints
  pure (set_body body comment)

unfoldable pub delete_comment :
    (repo_id number comment_id actor_id : ℕ) → PermissionLevel → Exec IssueStore (Unit {0})
delete_comment repo_id number comment_id actor_id actor_permission = do
  issue ← get_issue_or_404 repo_id number
  comment ← find_comment issue.id comment_id
  or_raise (may_not_touch actor_id actor_permission comment) permission_denied
  modify (λ d. record d { comments = delete_where (λ c. c.id == comment.id) d.comments })
  commit satisfies_constraints
