-- ===== src/Issues/Milestones/Laws.antt =====
-- issue_service.py: milestones in order, and what is left when one goes.
use pandahub.Prelude.{
  Option-cases, ℕ, ◌≡◌, refl, inl, inr, Option, none, some, Bool, true, false, ◌&&◌, ◌||◌, List, [],
  ◌∷◌, arith, any, all, All, is_some_of, ◌==◌, if◌then◌else◌, Bool-cases,
}
use pandahub.Exceptions.{Error.integrity, ok, err}
use pandahub.Session.{run}
use pandahub.Table.{select, update_where, delete_where, scalar_one_or_none, order_by}
use pandahub.Table.Laws.{In, In-select, select-All, All-order_by}
use pandahub.Table.Pages.{In-order_by}
use pandahub.Table.Sorted.{IsSorted, order_by-IsSorted}
use pandahub.Table.Keys.{any-update_where, unique-update_where, All-update_where}
use pandahub.Enums.{MilestoneState, is_milestone_state}
use pandahub.Issues.Store.{
  Issue, Milestone, MilestoneUpdate, IssueStore, same_issue, same_issue_number, has_milestone,
  issues_valid, links_valid, satisfies_constraints, found_or_404,
}
use pandahub.Issues.Milestones.{
  due_before, list_milestones, find_milestone, is_null, set_fields, change_milestone,
  update_milestone, unset_milestone, remove_milestone, delete_milestone,
}
use pandahub.Issues.Valid.{HasClosingTime, IsValid}

due_asym : (a b : Option ℕ) → due_before a b ≡ true → due_before b a ≡ false
unfolding due_before
due_asym none b h = cc
due_asym (some s) none h = refl
due_asym (some s) (some t) h = ground arith

-- The listing holds the milestones of the repository in the state, and no others, the earliest due
-- date first and those without one last.
pub list_milestones_lem :
    (d : IssueStore) (repo_id : ℕ) (state : MilestoneState)
    → (listed : List Milestone) × (run (list_milestones repo_id state) d ≡ (ok listed, d))
      × All (λ m. (m.repository_id == repo_id && is_milestone_state m.state state) ≡ true) listed
      × ((m : Milestone)
          → In m d.milestones
          → (m.repository_id == repo_id && is_milestone_state m.state state) ≡ true
          → In m listed)
      × IsSorted (λ a b. due_before a.due_date b.due_date) listed
unfolding list_milestones
list_milestones_lem d repo_id state = (
  order_by earlier (select matches d.milestones),
  refl,
  All-order_by (λ m. matches m ≡ true) earlier _ (select-All matches d.milestones),
  λ m i t. In-order_by earlier _ m (In-select matches d.milestones {x = m} t i),
  order_by-IsSorted earlier (λ a b. due_asym a.due_date b.due_date) _,
)
  where
    matches : Milestone → Bool
    matches m = m.repository_id == repo_id && is_milestone_state m.state state

    earlier : Milestone → Milestone → Bool
    earlier a b = due_before a.due_date b.due_date

other_left :
    (m id : ℕ) (xs : List Milestone)
    → (m == id) ≡ false
    → any (λ r. r.id == m) xs ≡ true
    → any (λ r. r.id == m) (delete_where (λ r. r.id == id) xs) ≡ true
unfolding delete_where
other_left m id [] n h = h
other_left m id (x ∷ xs) n h = ground (arith, other_left m id xs n)

still_planned :
    (id : ℕ) (ms : List Milestone) (x : Issue)
    → is_some_of x.milestone_id id ≡ false
    → has_milestone ms x ≡ true
    → has_milestone (delete_where (λ m. m.id == id) ms) x ≡ true
unfolding has_milestone
still_planned id ms x n h = elim (Option-cases x.milestone_id) [
  | inl e ↦ rw e refl
  | inr (m, e) ↦ rw e (other_left m id ms (rw e at n) (rw e at h))
]

unplanned : (ms : List Milestone) (x : Issue) → has_milestone ms (unset_milestone x) ≡ true
unfolding has_milestone unset_milestone
unplanned ms x = refl

milestones_left :
    (id : ℕ) (ms : List Milestone) (xs : List Issue)
    → all (has_milestone ms) xs ≡ true
    → all
        (has_milestone (delete_where (λ m. m.id == id) ms))
        (update_where (λ issue. is_some_of issue.milestone_id id) unset_milestone xs)
      ≡ true
unfolding update_where
milestones_left id ms [] h = refl
milestones_left id ms (x ∷ xs) h = elim (Bool-cases (is_some_of x.milestone_id id)) [
  | inl e ↦
      rw e
        (ground (arith, unplanned (delete_where (λ m. m.id == id) ms) x, milestones_left id ms xs))
  | inr e ↦ rw e (ground (arith, still_planned id ms x e, milestones_left id ms xs))
]

removed_constraints :
    (id : ℕ) (d : IssueStore)
    → satisfies_constraints d ≡ true
    → satisfies_constraints (remove_milestone id d) ≡ true
unfolding satisfies_constraints issues_valid links_valid remove_milestone
removed_constraints id d h = ground (
  arith,
  h,
  milestones_left id d.milestones d.issues,
  unique-update_where same_issue (λ issue. is_some_of issue.milestone_id id) unset_milestone
      d.issues (λ x y. unfold same_issue unset_milestone in refl)
      (λ x y. unfold same_issue unset_milestone in refl),
  unique-update_where same_issue_number (λ issue. is_some_of issue.milestone_id id) unset_milestone
      d.issues (λ x y. unfold same_issue_number unset_milestone in refl)
      (λ x y. unfold same_issue_number unset_milestone in refl),
)

removed-IsValid : (id : ℕ) (d : IssueStore) → IsValid d → IsValid (remove_milestone id d)
removed-IsValid id d v = record {
  constraints = removed_constraints id d v.constraints;
  closing_times =
      unfold remove_milestone unset_milestone in
      All-update_where HasClosingTime (λ issue. is_some_of issue.milestone_id id) unset_milestone
        d.issues (λ issue t h. h) v.closing_times;
}

module _ (repo_id milestone_id : ℕ) (d : IssueStore) (m : Milestone)
    (found : select (λ m. m.id == milestone_id && m.repository_id == repo_id) d.milestones ≡ m ∷ [])
    (v : IsValid d) where
  -- On valid rows, a milestone that the repository has under the id is deleted, and the issues
  -- that were planned for it stay, with no milestone; the rows stay valid, so that no issue refers
  -- to a missing one.
  pub delete_milestone_lem :
      (run (delete_milestone repo_id milestone_id) d ≡ (ok tt, remove_milestone m.id d))
      × IsValid (remove_milestone m.id d)
  unfolding delete_milestone find_milestone scalar_one_or_none found_or_404
  delete_milestone_lem =
      (rw found (rw (removed_constraints m.id d v.constraints) refl), removed-IsValid m.id d v)

  still_has :
      (payload : MilestoneUpdate) (x : Issue)
      → has_milestone (update_where (λ r. r.id == m.id) (set_fields payload) d.milestones) x
        ≡ has_milestone d.milestones x
  unfolding has_milestone
  still_has payload x = elim (Option-cases x.milestone_id) [
    | inl e ↦ rw e refl
    | inr (k, e) ↦ rw e (
        any-update_where (λ r. r.id == k) (λ r. r.id == m.id) (set_fields payload) d.milestones
          (λ r. unfold set_fields in refl))
  ]

  all_still_have :
      (payload : MilestoneUpdate) (xs : List Issue)
      → all (has_milestone (update_where (λ r. r.id == m.id) (set_fields payload) d.milestones)) xs
        ≡ all (has_milestone d.milestones) xs
  all_still_have payload [] = refl
  all_still_have payload (x ∷ xs) = cc (still_has payload x, all_still_have payload xs)

  changed_constraints :
      (payload : MilestoneUpdate)
      → satisfies_constraints (change_milestone m.id (set_fields payload) d) ≡ true
  unfolding satisfies_constraints issues_valid links_valid change_milestone
  changed_constraints payload = rw (all_still_have payload d.issues) v.constraints

  -- A milestone that the repository has under the id takes the fields that were sent, cleared where
  -- they were sent as null, except that a null title or state is reported as an IntegrityError and
  -- no row changes.
  pub update_milestone_lem :
      (payload : MilestoneUpdate)
      → run (update_milestone repo_id milestone_id payload) d ≡ (
          if is_null payload.title || is_null payload.state
          then (err integrity, d)
          else (ok (set_fields payload m), change_milestone m.id (set_fields payload) d))
  unfolding update_milestone find_milestone scalar_one_or_none found_or_404
  update_milestone_lem payload =
      rw found (elim (Bool-cases (is_null payload.title || is_null payload.state)) [
        | inl e ↦ rw e refl
        | inr e ↦ rw e (rw (changed_constraints payload) refl)
      ])
