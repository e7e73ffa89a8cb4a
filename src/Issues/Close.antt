-- ===== src/Issues/Close.antt =====
-- issue_service.py: `close_issue` and `reopen_issue`.
use mathlib.Core.Path.{subst}
use pandahub.Prelude.{
  ℕ, ◌≡◌, refl, ap, sym, ◌∙◌, ◌⊎◌, some, true, false, arith, is_some_of, ◌==◌, ==_refl,
}
use pandahub.Exceptions.{Error.permission_denied, Result, ok, err}
use pandahub.Session.{run}
use pandahub.Table.Laws.{All-implies, In, All-In}
use pandahub.Table.Keys.{
  unique-update_where, all-update_where, update_where_twice, update_where_same, unique_row,
  In-update_where,
}
use pandahub.Enums.{IssueState, open_, closed, PermissionLevel, maintain, admin}
use pandahub.Permissions.Text.{level_at_least-triage}
use pandahub.Issues.Store.{
  links_valid, Issue, IssueStore, same_issue, same_issue_number, has_milestone, issues_valid,
  satisfies_constraints, update_row,
}
use pandahub.Issues.{
  set_texts, changes_state, can_change_state, set_state, change_of_state, set_lock_and_milestone,
  replace_labels, replace_assignees, update_issue, only_state, close_issue, reopen_issue,
}
use pandahub.Issues.Valid.{HasClosingTime, IsValid, ids_unique}
use pandahub.Issues.Update.{
  update_issue-IsValid, updated, with_updated, update_issue_denied, update_issue_lem,
}

-- A change of state alone, to the row.
abbrev pub moved : (now : ℕ) → IssueState → Issue → Issue
moved now state issue = updated now (only_state state) issue

moved_store :
    (now : ℕ) (state : IssueState) (issue_id repo_id : ℕ) (d : IssueStore)
    → with_updated now (only_state state) issue_id repo_id d
      ≡ update_row issue_id (moved now state) d
unfolding only_state replace_labels replace_assignees
moved_store now state issue_id repo_id d = refl

moved_keys :
    (now : ℕ) (state : IssueState) (x : Issue)
    → ((moved now state x).id ≡ x.id)
      × ((moved now state x).repository_id ≡ x.repository_id)
      × ((moved now state x).number ≡ x.number)
      × ((moved now state x).milestone_id ≡ x.milestone_id)
unfolding only_state set_lock_and_milestone change_of_state set_state set_texts
moved_keys now state x = ground arith

moved_constraints :
    (now : ℕ) (state : IssueState) (i : ℕ) (d : IssueStore)
    → satisfies_constraints (update_row i (moved now state) d) ≡ satisfies_constraints d
unfolding satisfies_constraints issues_valid links_valid update_row
moved_constraints now state i d = cc (
  unique-update_where same_issue (λ r. r.id == i) (moved now state) d.issues
      (λ x y. unfold same_issue in rw ((moved_keys now state y).0) refl)
      (λ x y. unfold same_issue in rw ((moved_keys now state x).0) refl),
  unique-update_where same_issue_number (λ r. r.id == i) (moved now state) d.issues
      (λ x y.
        unfold same_issue_number in
        rw ((moved_keys now state y).1, (moved_keys now state y).2) refl)
      (λ x y.
        unfold same_issue_number in
        rw ((moved_keys now state x).1, (moved_keys now state x).2) refl),
  all-update_where (has_milestone d.milestones) (λ r. r.id == i) (moved now state) d.issues
      (λ x. unfold has_milestone in rw ((moved_keys now state x).3) refl),
)

module _ (now : ℕ) (d : IssueStore) (v : IsValid d) (issue : Issue) (i : In issue d.issues)
    (actor_id : ℕ) (actor_permission : PermissionLevel) where
  -- A change of state by the author goes through.
  move_allowed :
      (state : IssueState)
      → issue.author_id ≡ some actor_id
      → run
          (update_issue now issue.repository_id issue.number
            (only_state state)
            actor_id
            actor_permission)
          d
        ≡ (ok (moved now state issue), update_row issue.id (moved now state) d)
  move_allowed state a =
      let lem =
        update_issue_lem now d v issue i (only_state state) actor_id actor_permission
          (unfold only_state changes_state can_change_state in ground arith) in
      let fine = moved_constraints now state issue.id d ∙ v.constraints in
      lem ∙ rw moved_store (rw fine refl)

  -- Nobody but the author closes an open issue with the level MAINTAIN or ADMIN.
  pub close_issue_administrator :
      issue.state ≡ open_
      → is_some_of issue.author_id actor_id ≡ false
      → (actor_permission ≡ maintain) ⊎ (actor_permission ≡ admin)
      → run (close_issue now issue.repository_id issue.number actor_id actor_permission) d
        ≡ (err permission_denied, d)
  unfolding close_issue
  close_issue_administrator o a l =
      update_issue_denied now d v issue i (only_state closed) actor_id actor_permission (
        unfold only_state changes_state can_change_state in
        ground (arith, level_at_least-triage actor_permission))

-- An answer to a question by the keys of a row is one by the keys of a row that has the same.
same_answer :
    (ask : ℕ → ℕ → Result Issue × IssueStore) (row : ℕ → IssueStore) (x y r : Issue)
    (s : IssueStore)
    → x.id ≡ y.id
    → x.repository_id ≡ y.repository_id
    → x.number ≡ y.number
    → r ≡ y
    → row y.id ≡ s
    → ask x.repository_id x.number ≡ (ok r, row x.id)
    → ask y.repository_id y.number ≡ (ok y, s)
same_answer ask row x y r s i p n e q h = cc

-- To close and reopen an issue leaves it as it was.
moved_back :
    (now later : ℕ) (issue : Issue)
    → issue.state ≡ open_
    → HasClosingTime issue
    → moved later open_ (moved now closed issue) ≡ issue
unfolding only_state set_lock_and_milestone change_of_state set_state set_texts
moved_back now later issue o c = ground arith

module _ (now later : ℕ) (d : IssueStore) (v : IsValid d) (issue : Issue) (i : In issue d.issues)
    (actor_id : ℕ) (actor_permission : PermissionLevel) where
  abbrev between : IssueStore
  between = update_row issue.id (moved now closed) d

  reopened_row : issue.state ≡ open_ → update_row issue.id (moved later open_) between ≡ d
  unfolding update_row
  reopened_row o =
      ap (λ l. record d { issues = l })
        (update_where_twice (λ r. r.id == issue.id) (moved now closed) (moved later open_) d.issues
            (λ x. rw ((moved_keys now closed x).0) refl)
          ∙ update_where_same (λ r. r.id == issue.id) (λ x. moved later open_ (moved now closed x))
              d.issues
              (All-implies (λ x. same_issue x issue ≡ true → x ≡ issue)
                (λ x. (x.id == issue.id) ≡ true → moved later open_ (moved now closed x) ≡ x)
                d.issues
                (λ x h t.
                  moved_back now later x
                    (ap (λ (y : Issue). y.state) (h (unfold same_issue in t)) ∙ o)
                    (subst HasClosingTime (sym (h (unfold same_issue in t)))
                      (All-In HasClosingTime d.issues v.closing_times i)))
                (unique_row same_issue d.issues issue (λ a b. unfold same_issue in ground arith)
                  (ids_unique d v.constraints) i)))

  between-IsValid : issue.author_id ≡ some actor_id → IsValid between
  between-IsValid a =
      subst IsValid
        (ap (λ (r : Result Issue × IssueStore). r.1)
          (move_allowed now d v issue i actor_id actor_permission closed a))
        (update_issue-IsValid now d (only_state closed) actor_id actor_permission
          issue.repository_id issue.number v)

  moved_author : (moved now closed issue).author_id ≡ issue.author_id
  unfolding only_state set_lock_and_milestone change_of_state set_state set_texts
  moved_author = ground arith

  reopened :
      issue.state ≡ open_
      → issue.author_id ≡ some actor_id
      → run
          (update_issue later issue.repository_id issue.number
            (only_state open_)
            actor_id
            actor_permission)
          between
        ≡ (ok issue, d)
  reopened o a =
      let keys = moved_keys now closed issue in
      let e =
        move_allowed later between (between-IsValid a) (moved now closed issue)
          (unfold update_row in
            In-update_where (λ r. r.id == issue.id) (moved now closed) d.issues issue
              (==_refl issue.id) i)
          actor_id actor_permission open_ (moved_author ∙ a) in
      same_answer
        (λ repo_id number.
          run (update_issue later repo_id number (only_state open_) actor_id actor_permission)
            between)
        (λ id. update_row id (moved later open_) between) (moved now closed issue) issue
        (moved later open_ (moved now closed issue)) d keys.0 keys.1 keys.2
        (moved_back now later issue o (All-In HasClosingTime d.issues v.closing_times i))
        (reopened_row o) e

  -- On valid rows, the author of an open issue may close it, which records the time; when the
  -- author reopens it, the issue and all the rows are again as they were.
  pub reopen_issue-close_issue :
      issue.state ≡ open_
      → issue.author_id ≡ some actor_id
      → (closed_one : Issue) × ((run
            (close_issue now issue.repository_id issue.number actor_id actor_permission)
            d).0
          ≡ ok closed_one)
        × (closed_one.state ≡ closed)
        × (closed_one.closed_at ≡ some now)
        × (run
              (reopen_issue later issue.repository_id issue.number actor_id actor_permission)
              (run (close_issue now issue.repository_id issue.number actor_id actor_permission) d).1
            ≡ (ok issue, d))
  unfolding close_issue reopen_issue
  reopen_issue-close_issue o a =
      let e = move_allowed now d v issue i actor_id actor_permission closed a in
      (
        moved now closed issue,
        ap (λ (r : Result Issue × IssueStore). r.0) e,
        unfold only_state set_lock_and_milestone change_of_state set_state set_texts in
            ground arith,
        unfold only_state set_lock_and_milestone change_of_state set_state set_texts in
            ground arith,
        ap
              (λ (r : Result Issue × IssueStore).
                run
                  (update_issue later issue.repository_id issue.number (only_state open_) actor_id
                    actor_permission)
                  r.1)
              e
            ∙ reopened o a,
      )
