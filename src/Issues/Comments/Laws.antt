-- ===== src/Issues/Comments/Laws.antt =====
-- issue_service.py: who may comment, edit a comment and delete one.
use pandahub.Prelude.{
  ℕ, ◌≡◌, refl, inl, inr, true, not, ◌&&◌, String, List, [], ◌∷◌, ◌++◌, is_some_of, ◌==◌,
  if◌then◌else◌, Bool-cases,
}
use pandahub.Exceptions.{Error.permission_denied, ok, err}
use pandahub.Session.{run}
use pandahub.Table.{select, update_where, delete_where, scalar_one_or_none}
use pandahub.Table.Laws.{In}
use pandahub.Enums.{PermissionLevel, write, level_less}
use pandahub.Issues.Store.{
  Issue, IssueComment, IssueStore, issues_valid, links_valid, satisfies_constraints, found_or_404,
  get_issue_or_404,
}
use pandahub.Issues.Valid.{IsValid, select-number}
use pandahub.Issues.Comments.{
  new_comment, create_comment, find_comment, may_not_touch, set_body, update_comment,
  delete_comment,
}

module _ (d : IssueStore) (v : IsValid d) (issue : Issue) (i : In issue d.issues) where
  abbrev with_comments : List IssueComment → IssueStore
  with_comments comments = record d { comments = comments }

  still_valid :
      (comments : List IssueComment) → satisfies_constraints (with_comments comments) ≡ true
  unfolding satisfies_constraints issues_valid links_valid
  still_valid comments = v.constraints

  -- On valid rows, everybody may comment on a stored issue unless it is locked; on a locked one
  -- nobody may, whoever asks: the level of the caller plays no part.
  pub create_comment_lem :
      (new_id now author_id : ℕ) (body : String)
      → run (create_comment new_id now issue.repository_id issue.number author_id body) d ≡ (
          if issue.is_locked then (err permission_denied, d) else (
            ok (new_comment new_id now issue.id author_id body),
            record d {
              comments = d.comments ++ new_comment new_id now issue.id author_id body ∷ [];
            },
          ))
  unfolding create_comment get_issue_or_404 found_or_404 scalar_one_or_none
  create_comment_lem new_id now author_id body =
      rw (select-number d issue v.constraints i) (elim (Bool-cases issue.is_locked) [
        | inl e ↦ rw e refl
        | inr e ↦ rw e (
            rw (still_valid (d.comments ++ new_comment new_id now issue.id author_id body ∷ []))
              refl)
      ])

  module _ (comment : IssueComment) (comment_id actor_id : ℕ) (actor_permission : PermissionLevel)
      (found : select (λ c. c.id == comment_id && c.issue_id == issue.id) d.comments
        ≡ comment ∷ []) where
    -- A comment is edited by its author or at the level WRITE, and by nobody else; the edit changes
    -- its body alone.
    pub update_comment_lem :
        (body : String)
        → run
            (update_comment issue.repository_id issue.number comment_id actor_id actor_permission
              body)
            d
          ≡ (if may_not_touch actor_id actor_permission comment
              then (err permission_denied, d)
              else (
                ok (set_body body comment),
                record d {
                  comments = update_where (λ c. c.id == comment.id) (set_body body) d.comments;
                },
              ))
    unfolding update_comment get_issue_or_404 find_comment found_or_404 scalar_one_or_none
    update_comment_lem body = rw (select-number d issue v.constraints i) (
        rw found (elim (Bool-cases (may_not_touch actor_id actor_permission comment)) [
          | inl e ↦ rw e refl
          | inr e ↦ rw e (
              rw (still_valid (update_where (λ c. c.id == comment.id) (set_body body) d.comments))
                refl)
        ]))

    -- A comment is deleted by its author or at the level WRITE, and by nobody else, MAINTAIN and ADMIN
    -- included; no other row changes.
    pub delete_comment_lem :
        run (delete_comment issue.repository_id issue.number comment_id actor_id actor_permission) d
        ≡ (if not (is_some_of comment.author_id actor_id) && level_less actor_permission write
            then (err permission_denied, d)
            else (ok tt, record d { comments = delete_where (λ c. c.id == comment.id) d.comments }))
    unfolding delete_comment get_issue_or_404 find_comment found_or_404 scalar_one_or_none
        may_not_touch
    delete_comment_lem = rw (select-number d issue v.constraints i) (
        rw found
          (elim (Bool-cases
            (not (is_some_of comment.author_id actor_id) && level_less actor_permission write)) [
              | inl e ↦ rw e refl
              | inr e ↦
                  rw e (rw (still_valid (delete_where (λ c. c.id == comment.id) d.comments)) refl)
            ]))
