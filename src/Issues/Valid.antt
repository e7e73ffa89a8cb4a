-- ===== src/Issues/Valid.antt =====
-- issue_service.py: what holds of the rows between requests, and how an issue is found.
use pandahub.Prelude.{
  ℕ, ◌<◌, ◌≡◌, refl, ◌⊎◌, inl, inr, true, false, List, [], ◌∷◌, arith, any, All, is_some,
  Bool-cases,
}
use pandahub.Table.{select, unique}
use pandahub.Table.Laws.{In, any-In, select_none}
use pandahub.Table.Keys.{select_single, max_of-select}
use pandahub.Enums.{closed, is_issue_state}
use pandahub.Issues.Store.{
  Issue, IssueStore, same_issue, same_issue_number, issues_valid, satisfies_constraints, has_number,
  in_repository, assign_next_number,
}

-- An issue carries a closing time exactly while its state is CLOSED.
abbrev pub HasClosingTime : Issue → Type 0
HasClosingTime issue = is_issue_state issue.state closed ≡ is_some issue.closed_at

pub record IsValid (d : IssueStore) : Type 0 where
  pub constraints : satisfies_constraints d ≡ true
  pub closing_times : All HasClosingTime d.issues

pub numbers_unique :
    (d : IssueStore) → satisfies_constraints d ≡ true → unique same_issue_number d.issues ≡ true
unfolding satisfies_constraints issues_valid
numbers_unique d h = ground arith

pub ids_unique :
    (d : IssueStore) → satisfies_constraints d ≡ true → unique same_issue d.issues ≡ true
unfolding satisfies_constraints issues_valid
ids_unique d h = ground arith

number_unique :
    (repo_id number : ℕ) (x y : Issue)
    → has_number repo_id number x ≡ true
    → has_number repo_id number y ≡ true
    → same_issue_number x y ≡ true
unfolding has_number same_issue_number
number_unique repo_id number x y h k = ground arith

has_number_self : (issue : Issue) → has_number issue.repository_id issue.number issue ≡ true
unfolding has_number
has_number_self issue = ground arith

-- The query by number finds exactly the row that has it.
pub select-number :
    (d : IssueStore) (issue : Issue)
    → satisfies_constraints d ≡ true
    → In issue d.issues
    → select (has_number issue.repository_id issue.number) d.issues ≡ issue ∷ []
select-number d issue h i =
    select_single same_issue_number (has_number issue.repository_id issue.number) d.issues issue
      (number_unique issue.repository_id issue.number) (numbers_unique d h) (has_number_self issue)
      i

-- A row is found by its number, or no row has it.
pub number_cases :
    (d : IssueStore) (repo_id number : ℕ)
    → (select (has_number repo_id number) d.issues ≡ [])
      ⊎ ((issue : Issue) × In issue d.issues
          × (issue.repository_id ≡ repo_id)
          × (issue.number ≡ number))
unfolding has_number
number_cases d repo_id number = elim (Bool-cases (any (has_number repo_id number) d.issues)) [
  | inl e ↦
      let (issue, i, t) = any-In (has_number repo_id number) d.issues e in
      inr (issue, i, ground arith, ground arith)
  | inr e ↦ inl (select_none (has_number repo_id number) d.issues e)
]

-- The number that the next issue of a repository gets is larger than every number there.
pub assign_next_number-lt_issue :
    (repo_id : ℕ) (d : IssueStore) (issue : Issue)
    → In issue d.issues
    → issue.repository_id ≡ repo_id
    → issue.number < assign_next_number repo_id d
unfolding assign_next_number
assign_next_number-lt_issue repo_id d issue i e = omega (
  arith,
  max_of-select (λ (issue : Issue). issue.number) (in_repository repo_id) d.issues issue
      (unfold in_repository in ground arith) i,
)

-- No row has it yet.
pub next_number_free :
    (repo_id : ℕ) (d : IssueStore) (xs : List Issue)
    → ((issue : Issue) → In issue xs → In issue d.issues)
    → any (has_number repo_id (assign_next_number repo_id d)) xs ≡ false
unfolding has_number
next_number_free repo_id d [] sub = refl
next_number_free repo_id d (x ∷ xs) sub = ground (
  arith,
  assign_next_number-lt_issue repo_id d x (sub x (inl refl)),
  next_number_free repo_id d xs (λ issue i. sub issue (inr i)),
)
