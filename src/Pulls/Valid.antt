-- ===== src/Pulls/Valid.antt =====
-- pr_service.py: what holds of the rows between requests, and how a pull request is found.
use pandahub.Prelude.{
  ℕ, ◌<◌, ◌≡◌, refl, ◌⊎◌, inl, inr, true, false, List, [], ◌∷◌, arith, any, All, is_some,
  Bool-cases,
}
use pandahub.Table.{select, unique}
use pandahub.Table.Laws.{any-In, In, select_none}
use pandahub.Table.Keys.{select_single, max_of-select}
use pandahub.Enums.{closed, is_pull_request_state}
use pandahub.Pulls.Store.{
  PullRequest, PullStore, same_number, satisfies_constraints, has_number, in_repository,
  assign_next_number,
}

-- A pull request carries a closing time exactly while its state is CLOSED.
abbrev pub HasClosingTime : PullRequest → Type 0
HasClosingTime pr = is_pull_request_state pr.state closed ≡ is_some pr.closed_at

pub record IsValid (d : PullStore) : Type 0 where
  pub constraints : satisfies_constraints d ≡ true
  pub closing_times : All HasClosingTime d.pull_requests

-- The number that the next pull request of a repository gets is larger than every number there.
pub assign_next_number-lt :
    (repo_id : ℕ) (d : PullStore) (pr : PullRequest)
    → In pr d.pull_requests
    → pr.repository_id ≡ repo_id
    → pr.number < assign_next_number repo_id d
unfolding assign_next_number in_repository
assign_next_number-lt repo_id d pr i e = omega (
  arith,
  max_of-select (λ (pr : PullRequest). pr.number) (in_repository repo_id) d.pull_requests pr
      (unfold in_repository in ground arith) i,
)

-- No row has it yet.
pub next_number_free :
    (repo_id : ℕ) (d : PullStore) (xs : List PullRequest)
    → ((pr : PullRequest) → In pr xs → In pr d.pull_requests)
    → any (has_number repo_id (assign_next_number repo_id d)) xs ≡ false
unfolding has_number
next_number_free repo_id d [] sub = refl
next_number_free repo_id d (x ∷ xs) sub = ground (
  arith,
  assign_next_number-lt repo_id d x (sub x (inl refl)),
  next_number_free repo_id d xs (λ pr i. sub pr (inr i)),
)

-- Only one row has a number.
number_unique :
    (repo_id number : ℕ) (x y : PullRequest)
    → has_number repo_id number x ≡ true
    → has_number repo_id number y ≡ true
    → same_number x y ≡ true
unfolding has_number same_number
number_unique repo_id number x y h k = ground arith

has_number_self : (pr : PullRequest) → has_number pr.repository_id pr.number pr ≡ true
unfolding has_number
has_number_self pr = ground arith

numbers_unique :
    (d : PullStore) → satisfies_constraints d ≡ true → unique same_number d.pull_requests ≡ true
unfolding satisfies_constraints
numbers_unique d h = ground arith

-- The query by number finds exactly the row that has it.
pub select-number :
    (d : PullStore) (pr : PullRequest)
    → satisfies_constraints d ≡ true
    → In pr d.pull_requests
    → select (has_number pr.repository_id pr.number) d.pull_requests ≡ pr ∷ []
select-number d pr h i =
    select_single same_number (has_number pr.repository_id pr.number) d.pull_requests pr
      (number_unique pr.repository_id pr.number) (numbers_unique d h) (has_number_self pr) i

-- A row is found by its number, or no row has it.
pub number_cases :
    (d : PullStore) (repo_id number : ℕ)
    → satisfies_constraints d ≡ true
    → (select (has_number repo_id number) d.pull_requests ≡ [])
      ⊎ ((pr : PullRequest) × In pr d.pull_requests
          × (pr.repository_id ≡ repo_id)
          × (pr.number ≡ number))
unfolding has_number
number_cases d repo_id number h =
    elim (Bool-cases (any (has_number repo_id number) d.pull_requests)) [
      | inl e ↦
          let (pr, i, t) = any-In (has_number repo_id number) d.pull_requests e in
          inr (pr, i, ground arith, ground arith)
      | inr e ↦ inl (select_none (has_number repo_id number) d.pull_requests e)
    ]
