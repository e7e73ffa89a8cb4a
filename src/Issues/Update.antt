-- ===== src/Issues/Update.antt =====
-- issue_service.py: `update_issue` on every branch.
use pandahub.Prelude.{
  ℕ, ◌≡◌, refl, ◌∙◌, inl, inr, Option, none, some, Bool, true, false, List, [], ◌∷◌, arith, not,
  ◌&&◌, All, is_some, ◌==◌, if◌then◌else◌, Bool-cases, ==_refl,
}
use pandahub.Exceptions.{Error.not_found, Error.permission_denied, Error.integrity, Result, ok, err}
use pandahub.Session.{run}
use pandahub.Table.{select, scalar_one_or_none, update_where}
use pandahub.Table.Laws.{In}
use pandahub.Table.Keys.{All-update_where, update_where_twice, select-update_where}
use pandahub.Enums.{PermissionLevel, triage, level_less}
use pandahub.Issues.Store.{
  Issue, IssueUpdate, IssueStore, satisfies_constraints, has_number, found_or_404, get_issue_or_404,
  update_row,
}
use pandahub.Issues.{
  set_texts, changes_state, can_change_state, set_state, change_of_state, set_lock_and_milestone,
  add_labels, add_assignees, replace_labels, replace_assignees, update_issue,
}
use pandahub.Issues.Valid.{HasClosingTime, IsValid, select-number, number_cases}

-- The three writes to the row of the issue.
abbrev pub updated : (now : ℕ) → IssueUpdate → Issue → Issue
updated now payload issue =
    set_lock_and_milestone payload (change_of_state now payload (set_texts payload issue))

-- The rows that the request leaves behind when it commits.
abbrev pub with_updated : (now : ℕ) → IssueUpdate → (issue_id repo_id : ℕ) → IssueStore → IssueStore
with_updated now payload issue_id repo_id d = replace_assignees issue_id payload.assignee_ids (
    replace_labels issue_id repo_id payload.label_ids (update_row issue_id (updated now payload) d))

-- What the caller may not do: change the state, or lock and unlock.
abbrev pub is_refused : IssueUpdate → (actor_id : ℕ) → PermissionLevel → Issue → Bool
is_refused payload actor_id actor_permission issue =
    if changes_state payload issue && not (can_change_state actor_id actor_permission issue)
    then true
    else is_some payload.is_locked && level_less actor_permission triage

three_updates :
    (i now : ℕ) (payload : IssueUpdate) (d : IssueStore)
    → update_row i
        (set_lock_and_milestone payload)
        (update_row i (change_of_state now payload) (update_row i (set_texts payload) d))
      ≡ update_row i (updated now payload) d
unfolding update_row set_texts
three_updates i now payload d =
    rw
      (update_where_twice (λ issue. issue.id == i) (set_texts payload) (change_of_state now payload)
        d.issues (λ x. refl))
      (rw
        (update_where_twice (λ issue. issue.id == i)
          (λ x. change_of_state now payload (set_texts payload x)) (set_lock_and_milestone payload)
          d.issues (λ x. unfold change_of_state set_state in ground arith))
        refl)

updated_number :
    (now : ℕ) (payload : IssueUpdate) (repo_id number : ℕ) (issue : Issue)
    → has_number repo_id number (updated now payload issue) ≡ has_number repo_id number issue
unfolding has_number set_lock_and_milestone change_of_state set_state set_texts
updated_number now payload repo_id number issue = ground arith

issues-replace :
    (issue_id repo_id : ℕ) (label_ids user_ids : Option (List ℕ)) (d : IssueStore)
    → (replace_assignees issue_id user_ids (replace_labels issue_id repo_id label_ids d)).issues
      ≡ d.issues
unfolding replace_assignees replace_labels add_labels add_assignees
issues-replace issue_id repo_id none none d = refl
issues-replace issue_id repo_id none (some user_ids) d = refl
issues-replace issue_id repo_id (some label_ids) none d = refl
issues-replace issue_id repo_id (some label_ids) (some user_ids) d = refl

updated_found :
    (now : ℕ) (payload : IssueUpdate) (d : IssueStore) (issue : Issue)
    → select (has_number issue.repository_id issue.number) d.issues ≡ issue ∷ []
    → select
        (has_number issue.repository_id issue.number)
        (with_updated now payload issue.id issue.repository_id d).issues
      ≡ updated now payload issue ∷ []
updated_found now payload d issue e = rw issues-replace (
    unfold update_row update_where in
    select-update_where (has_number issue.repository_id issue.number) (λ r. r.id == issue.id)
      (updated now payload) d.issues (updated_number now payload issue.repository_id issue.number)
    ∙ rw e (rw ==_refl refl))

module _ (now : ℕ) (d : IssueStore) (v : IsValid d) (issue : Issue) (i : In issue d.issues)
    (payload : IssueUpdate) (actor_id : ℕ) (actor_permission : PermissionLevel) where
  abbrev request : Result Issue × IssueStore
  request =
      run (update_issue now issue.repository_id issue.number payload actor_id actor_permission) d

  -- On valid rows, a refused change of the state or of the lock of a stored issue raises, and
  -- leaves every row as it was: the new title of the same payload is lost too.
  pub update_issue_denied :
      is_refused payload actor_id actor_permission issue ≡ true
      → request ≡ (err permission_denied, d)
  unfolding update_issue get_issue_or_404 scalar_one_or_none found_or_404
  update_issue_denied refused = rw (select-number d issue v.constraints i) (ground arith)

  -- On valid rows, an update of a stored issue that is not refused is stored whole, with the
  -- labels and assignees that it replaces, and returned, if the rows then meet the constraints;
  -- otherwise IntegrityError is raised and no row changes.
  pub update_issue_lem :
      is_refused payload actor_id actor_permission issue ≡ false
      → request ≡ (
          if satisfies_constraints (with_updated now payload issue.id issue.repository_id d)
          then (
            ok (updated now payload issue),
            with_updated now payload issue.id issue.repository_id d,
          )
          else (err integrity, d))
  unfolding update_issue get_issue_or_404 scalar_one_or_none found_or_404
  update_issue_lem allowed =
      let state_ok : (changes_state payload issue
            && not (can_change_state actor_id actor_permission issue))
          ≡ false =
        ground arith in
      let lock_ok : (is_some payload.is_locked && level_less actor_permission triage) ≡ false =
        ground arith in
      rw (select-number d issue v.constraints i) (
        rw state_ok (
          rw lock_ok (
            rw (three_updates issue.id now payload d)
              (elim (Bool-cases
                (satisfies_constraints (with_updated now payload issue.id issue.repository_id d))) [
                  | inl e ↦ rw e (
                      rw (updated_found now payload d issue (select-number d issue v.constraints i))
                        refl)
                  | inr e ↦ rw e refl
                ]))))

module _ (now : ℕ) (d : IssueStore) (payload : IssueUpdate) (actor_id : ℕ)
    (actor_permission : PermissionLevel) where
  update_issue_missing :
      (repo_id number : ℕ)
      → select (has_number repo_id number) d.issues ≡ []
      → run (update_issue now repo_id number payload actor_id actor_permission) d
        ≡ (err not_found, d)
  unfolding update_issue get_issue_or_404 scalar_one_or_none found_or_404
  update_issue_missing repo_id number e = rw e refl

  updated-HasClosingTime :
      (issue : Issue) → HasClosingTime issue → HasClosingTime (updated now payload issue)
  unfolding set_lock_and_milestone change_of_state set_state set_texts
  updated-HasClosingTime issue h = ground arith

  closing_times :
      (issue_id repo_id : ℕ)
      → IsValid d
      → All HasClosingTime (with_updated now payload issue_id repo_id d).issues
  closing_times issue_id repo_id v = rw issues-replace (
      unfold update_row in
      All-update_where HasClosingTime (λ issue. issue.id == issue_id) (updated now payload) d.issues
        (λ issue t h. updated-HasClosingTime issue h) v.closing_times)

  -- Whatever the payload and whoever asks, valid rows stay valid: closing an issue sets its
  -- closing time, and reopening it clears it.
  pub update_issue-IsValid :
      (repo_id number : ℕ)
      → IsValid d
      → IsValid (run (update_issue now repo_id number payload actor_id actor_permission) d).1
  update_issue-IsValid repo_id number v = elim (number_cases d repo_id number) [
    | inl nobody ↦ rw (update_issue_missing repo_id number nobody) v
    | inr (issue, i, e, f) ↦
        elim (Bool-cases (is_refused payload actor_id actor_permission issue)) [
          | inl t ↦
              rw (← e, ← f)
                (rw (update_issue_denied now d v issue i payload actor_id actor_permission t) v)
          | inr t ↦
              rw (← e, ← f)
                (rw (update_issue_lem now d v issue i payload actor_id actor_permission t)
                  (elim (Bool-cases (
                    satisfies_constraints
                      (with_updated now payload issue.id issue.repository_id d))) [
                        | inl c ↦ rw c (record {
                          constraints = c;
                          closing_times = closing_times issue.id issue.repository_id v;
                        })
                        | inr c ↦ rw c v
                      ]))
        ]
  ]
