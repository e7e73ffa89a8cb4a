-- ===== src/Issues/Rights.antt =====
-- issue_service.py: whom `update_issue` lets change the state and the lock of an issue.
use pandahub.Prelude.{
  ℕ, ◌≡◌, ◌≢◌, ◌⊎◌, ◌↔◌, refl, inl, inr, Option, none, some, true, false, arith, not, ◌&&◌, is_some,
  is_some_of, if◌then◌else◌, Bool-cases, Option-cases,
}
use pandahub.Exceptions.{Error.permission_denied, Error.integrity, ok, err}
use pandahub.Table.Laws.{In}
use pandahub.Enums.{IssueState, is_issue_state, PermissionLevel, read, triage, write, level_less}
use pandahub.Permissions.Text.{level_at_least-triage}
use pandahub.Issues.Store.{Issue, IssueUpdate, IssueStore, satisfies_constraints}
use pandahub.Issues.{changes_state, can_change_state, update_issue}
use pandahub.Session.{run}
use pandahub.Issues.Valid.{IsValid}
use pandahub.Issues.Update.{
  updated, with_updated, is_refused, update_issue_denied, update_issue_lem,
}

-- The levels whose words do not sort before "triage".
abbrev pub IsTriager : PermissionLevel → Type 0
IsTriager level = (level ≡ triage) ⊎ (level ≡ write)

-- Whom the request's changes of the state and of the lock are open to: a new state to the author
-- and to TRIAGE and WRITE, any mention of the lock to TRIAGE and WRITE.
pub record IsPermitted (payload : IssueUpdate) (actor_id : ℕ) (level : PermissionLevel)
    (issue : Issue) : Type 0 where
  pub state :
      (state : IssueState)
      → payload.state ≡ some state
      → state ≢ issue.state
      → (issue.author_id ≡ some actor_id) ⊎ IsTriager level
  pub lock : payload.is_locked ≢ none → IsTriager level

less_triage : (level : PermissionLevel) → (level_less level triage ≡ false) ↔ IsTriager level
unfolding level_less
less_triage read = ground arith
less_triage _ = ground arith

same_issue_state : (a b : IssueState) → (is_issue_state a b ≡ true) ↔ (a ≡ b)
same_issue_state a b = (λ h. ground arith, λ h. ground arith)

author_is :
    (author : Option ℕ) (actor_id : ℕ)
    → (is_some_of author actor_id ≡ true) ↔ (author ≡ some actor_id)
author_is none actor_id = ground arith
author_is (some a) actor_id = ground arith

module _ (payload : IssueUpdate) (actor_id : ℕ) (level : PermissionLevel) (issue : Issue) where
  can_change :
      (can_change_state actor_id level issue ≡ true)
      ↔ ((issue.author_id ≡ some actor_id) ⊎ IsTriager level)
  unfolding can_change_state
  can_change =
      let (forth, back) = author_is issue.author_id actor_id in
      let (up, down) = (level_at_least-triage level).0 in
      (
        λ h. elim (Bool-cases (is_some_of issue.author_id actor_id)) [
          | inl a ↦ inl (forth a)
          | inr n ↦ inr (up (ground (arith, n, h)))
        ],
        λ h. elim h [ inl a ↦ rw (back a) refl | inr t ↦ ground (arith, down t) ],
      )

  changes :
      (changes_state payload issue ≡ true)
      ↔ ((state : IssueState) × (payload.state ≡ some state) × (state ≢ issue.state))
  unfolding changes_state
  changes = (
    λ h. elim (Option-cases payload.state) [
      | inl n ↦ absurd (ground (arith, n, h))
      | inr (state, e) ↦
          (state, e, λ q. absurd (ground (arith, e, h, (same_issue_state state issue.state).1 q)))
    ],
    λ (state, e, n). elim (Bool-cases (is_issue_state state issue.state)) [
      | inl t ↦ absurd (n ((same_issue_state state issue.state).0 t))
      | inr f ↦ ground (arith, e, f)
    ],
  )

  lock_sent : (is_some payload.is_locked ≡ true) ↔ (payload.is_locked ≢ none)
  lock_sent = elim (Option-cases payload.is_locked) [
    | inl n ↦ (λ h. absurd (ground (arith, n, h)), λ h. absurd (h n))
    | inr (b, e) ↦ (λ h q. cc (e, q), λ h. rw e refl)
  ]

  state_passes :
      IsPermitted payload actor_id level issue
      → (changes_state payload issue && not (can_change_state actor_id level issue)) ≡ false
  state_passes p = elim (Bool-cases (changes_state payload issue)) [
    | inr n ↦ rw n refl
    | inl c ↦ let (state, e, n) = changes.0 c in rw (c, can_change.1 (p.state state e n)) refl
  ]

  lock_passes :
      IsPermitted payload actor_id level issue
      → (is_some payload.is_locked && level_less level triage) ≡ false
  lock_passes p = elim (Bool-cases (is_some payload.is_locked)) [
    | inr n ↦ rw n refl
    | inl s ↦ rw (s, (less_triage level).1 (p.lock (lock_sent.0 s))) refl
  ]

  -- The code's guards let through what is permitted, and nothing else.
  permitted :
      (is_refused payload actor_id level issue ≡ false) ↔ IsPermitted payload actor_id level issue
  permitted = (
    λ h. record {
      state = λ state e n. can_change.0 (ground (arith, h, changes.1 (state, e, n)));
      lock = λ sent. (less_triage level).0 (ground (arith, h, lock_sent.1 sent));
    },
    λ p. rw (state_passes p, lock_passes p) refl,
  )

module _ (now : ℕ) (d : IssueStore) (v : IsValid d) (issue : Issue) (i : In issue d.issues)
    (payload : IssueUpdate) (actor_id : ℕ) (actor_permission : PermissionLevel) where
  -- On valid rows, an update of a stored issue whose change of the state and of the lock is open to
  -- the caller is stored whole and returned, if the rows then meet the constraints, and raises
  -- IntegrityError otherwise; any other update is denied. What is not stored changes no row. The
  -- state is open to the author and to the levels TRIAGE and WRITE, the lock to these two levels;
  -- MAINTAIN and ADMIN are refused.
  pub update_issue-IsPermitted :
      (IsPermitted payload actor_id actor_permission issue
        → run
            (update_issue now issue.repository_id issue.number payload actor_id actor_permission)
            d
          ≡ (if satisfies_constraints (with_updated now payload issue.id issue.repository_id d)
              then (
                ok (updated now payload issue),
                with_updated now payload issue.id issue.repository_id d,
              )
              else (err integrity, d)))
      × (¬ IsPermitted payload actor_id actor_permission issue
          → run
              (update_issue now issue.repository_id issue.number payload actor_id actor_permission)
              d
            ≡ (err permission_denied, d))
  update_issue-IsPermitted = (
    λ p.
        update_issue_lem now d v issue i payload actor_id actor_permission
          ((permitted payload actor_id actor_permission issue).1 p),
    λ n. elim (Bool-cases (is_refused payload actor_id actor_permission issue)) [
      | inl t ↦ update_issue_denied now d v issue i payload actor_id actor_permission t
      | inr f ↦ absurd (n ((permitted payload actor_id actor_permission issue).0 f))
    ],
  )
