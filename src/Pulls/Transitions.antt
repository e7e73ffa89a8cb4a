-- ===== src/Pulls/Transitions.antt =====
-- pr_service.py: which changes of state `update_pull_request` lets through, and what they leave.
use pandahub.Prelude.{
  ℕ, ◌≡◌, ◌∙◌, ◌⊎◌, inl, inr, none, some, true, false, arith, not, ◌&&◌, is_some_of, ◌==◌,
  Bool-cases,
}
use pandahub.Exceptions.{Error.permission_denied, ok, err}
use pandahub.Session.{run}
use pandahub.Table.Laws.{In}
use pandahub.Table.Keys.{All-update_where}
use pandahub.Enums.{open_, merged, PermissionLevel, maintain, admin}
use pandahub.Permissions.Text.{level_at_least-triage}
use pandahub.Pulls.Store.{PullRequest, PullRequestUpdate, PullStore, update_pull}
use pandahub.Pulls.{
  set_texts, set_state, changes_state, can_change_state, change_of_state, update_pull_request,
}
use pandahub.Pulls.Valid.{HasClosingTime, IsValid, number_cases}
use pandahub.Pulls.Update.{
  updated, constraints-updated, update_pull_request_denied, update_pull_request_lem,
  update_pull_request_missing,
}

updated-HasClosingTime :
    (now : ℕ) (payload : PullRequestUpdate) (pr : PullRequest)
    → HasClosingTime pr
    → HasClosingTime (updated now payload pr)
unfolding change_of_state set_texts set_state
updated-HasClosingTime now payload pr h = ground arith

update_pull-IsValid :
    (now i : ℕ) (payload : PullRequestUpdate) (d : PullStore)
    → IsValid d
    → IsValid (update_pull i (updated now payload) d)
update_pull-IsValid now i payload d v = record {
  constraints = constraints-updated now i payload d ∙ v.constraints;
  closing_times =
      unfold update_pull in
      All-update_where HasClosingTime (λ pr. pr.id == i) (updated now payload) d.pull_requests
        (λ pr t h. updated-HasClosingTime now payload pr h) v.closing_times;
}

module _ (now : ℕ) (d : PullStore) (v : IsValid d) (payload : PullRequestUpdate) (actor_id : ℕ)
    (actor_permission : PermissionLevel) where
  -- Whatever the payload and whoever asks, valid rows stay valid: an update that closes a pull
  -- request sets its closing time and every other change of state clears it.
  pub update_pull_request-IsValid :
      (repo_id number : ℕ)
      → IsValid (run (update_pull_request now repo_id number payload actor_id actor_permission) d).1
  update_pull_request-IsValid repo_id number = elim (number_cases d repo_id number v.constraints) [
    | inl none_there ↦
        rw
          (update_pull_request_missing now d repo_id number payload actor_id actor_permission
            none_there)
          v
    | inr (pr, i, e, f) ↦
        elim (Bool-cases
          (changes_state payload pr && not (can_change_state actor_id actor_permission pr))) [
            | inl t ↦
                rw (← e, ← f)
                  (rw
                    (update_pull_request_denied now d v pr i payload actor_id actor_permission
                      (ground arith) (ground arith))
                    v)
            | inr t ↦
                rw (← e, ← f)
                  (rw (update_pull_request_lem now d v pr i payload actor_id actor_permission t)
                    (update_pull-IsValid now pr.id payload d v))
          ]
  ]

module _ (now : ℕ) (d : PullStore) (v : IsValid d) (pr : PullRequest) (i : In pr d.pull_requests)
    (payload : PullRequestUpdate) (actor_id : ℕ) (actor_permission : PermissionLevel) where
  -- Nobody but the author may change a state with the level MAINTAIN or ADMIN: the comparison with
  -- TRIAGE is one of strings.
  pub update_pull_request_administrator :
      changes_state payload pr ≡ true
      → is_some_of pr.author_id actor_id ≡ false
      → (actor_permission ≡ maintain) ⊎ (actor_permission ≡ admin)
      → run (update_pull_request now pr.repository_id pr.number payload actor_id actor_permission) d
        ≡ (err permission_denied, d)
  update_pull_request_administrator c a l =
      update_pull_request_denied now d v pr i payload actor_id actor_permission c
        (unfold can_change_state in ground (arith, level_at_least-triage actor_permission))

  -- The author of an open pull request may set its state to MERGED: the row then says so, with no
  -- merge time, no merge commit and no closing time.
  pub update_pull_request_merged :
      payload.state ≡ some merged
      → pr.state ≡ open_
      → pr.author_id ≡ some actor_id
      → pr.merge_commit_sha ≡ none
      → pr.merged_at ≡ none
      → (after : PullRequest) × (run
            (update_pull_request now pr.repository_id pr.number payload actor_id actor_permission)
            d
          ≡ (ok after, update_pull pr.id (updated now payload) d))
        × (after.state ≡ merged)
        × (after.merge_commit_sha ≡ none)
        × (after.merged_at ≡ none)
        × (after.closed_at ≡ none)
  update_pull_request_merged s o a n m = (
    updated now payload pr,
    update_pull_request_lem now d v pr i payload actor_id actor_permission
        (unfold can_change_state in ground arith),
    unfold change_of_state set_texts set_state in ground arith,
    unfold change_of_state set_texts set_state in ground arith,
    unfold change_of_state set_texts set_state in ground arith,
    unfold change_of_state set_texts set_state in ground arith,
  )
