-- ===== src/Pulls/Create.antt =====
-- pr_service.py: `create_pull_request`, on every branch, and the numbers that it assigns.
use mathlib.Core.Option.{get_or}
use pandahub.Prelude.{
  ℕ, ◌≡◌, refl, true, false, List, [], ◌∷◌, ◌++◌, arith, any, All-snoc, ◌==◌, if◌then◌else◌, length,
  ==_refl,
}
use pandahub.Exceptions.{Error.conflict, Error.multiple_results, ok, err}
use pandahub.Session.{run}
use pandahub.Table.{select, scalar_one_or_none}
use pandahub.Table.Laws.{select_none}
use pandahub.Table.Keys.{all-snoc, select-append, unique-snoc}
use pandahub.Permissions.{Repository}
use pandahub.Pulls.Store.{
  has_target, has_user, null_or_user, has_author, has_merger, people_valid, PullRequest,
  PullRequestCreate, PullStore, same_number, same_id, has_source, satisfies_constraints, has_number,
  assign_next_number, found_or_404, get_pr_or_404, is_open_for,
}
use pandahub.Pulls.{new_pull_request, add_pull, create_pull_request}
use pandahub.Pulls.Valid.{HasClosingTime, IsValid, next_number_free}

module _ (new_id now : ℕ) (repo : Repository) (author_id : ℕ) (payload : PullRequestCreate)
    (d : PullStore) where
  -- The rows that stand in the way of the new pull request.
  abbrev pub open_pulls : List PullRequest
  open_pulls =
      select (is_open_for repo.id (get_or payload.source_repository_id repo.id) payload)
        d.pull_requests

  abbrev pub created : PullRequest
  created = new_pull_request new_id now repo author_id payload (assign_next_number repo.id d)

  -- The new row has a new id, and its repositories and its author exist.
  pub record CanAdd : Type 0 where
    pub fresh : any (λ pr. pr.id == new_id) d.pull_requests ≡ false
    pub source :
        any (λ r. r.id == get_or payload.source_repository_id repo.id) d.repositories ≡ true
    pub target : any (λ r. r.id == repo.id) d.repositories ≡ true
    pub author : has_user d.users author_id ≡ true

  id_free :
      (xs : List PullRequest)
      → any (λ pr. pr.id == new_id) xs ≡ false
      → any (λ x. same_id x created) xs ≡ false
  unfolding same_id new_pull_request
  id_free [] h = refl
  id_free (x ∷ xs) h = ground (arith, id_free xs)

  number_free :
      (xs : List PullRequest)
      → any (has_number repo.id (assign_next_number repo.id d)) xs ≡ false
      → any (λ x. same_number x created) xs ≡ false
  unfolding same_number has_number new_pull_request
  number_free [] h = refl
  number_free (x ∷ xs) h = ground (arith, number_free xs)

  has_source-created : CanAdd → has_source d.repositories created ≡ true
  unfolding has_source new_pull_request
  has_source-created c = c.source

  has_target-created : CanAdd → has_target d.repositories created ≡ true
  unfolding has_target new_pull_request
  has_target-created c = c.target

  people-created :
      CanAdd → (has_author d.users created ≡ true) × (has_merger d.users created ≡ true)
  unfolding has_author has_merger null_or_user new_pull_request
  people-created c = (c.author, refl)

  constraints-add_pull : IsValid d → CanAdd → satisfies_constraints (add_pull created d) ≡ true
  unfolding satisfies_constraints people_valid add_pull
  constraints-add_pull v c = ground (
    arith,
    v.constraints,
    unique-snoc same_id d.pull_requests created,
    id_free d.pull_requests c.fresh,
    unique-snoc same_number d.pull_requests created,
    number_free d.pull_requests (next_number_free repo.id d d.pull_requests (λ pr i. i)),
    all-snoc (has_source d.repositories) d.pull_requests created,
    has_source-created c,
    all-snoc (has_target d.repositories) d.pull_requests created,
    has_target-created c,
    all-snoc (has_author d.users) d.pull_requests created,
    all-snoc (has_merger d.users) d.pull_requests created,
    (people-created c).0,
    (people-created c).1,
  )

  created_found :
      select (has_number repo.id (assign_next_number repo.id d)) (d.pull_requests ++ created ∷ [])
      ≡ created ∷ []
  created_found = rw select-append (
      rw
        (select_none (has_number repo.id (assign_next_number repo.id d)) d.pull_requests
          (next_number_free repo.id d d.pull_requests (λ pr i. i)))
        (unfold has_number new_pull_request select in
          ground (arith, ==_refl repo.id, ==_refl (assign_next_number repo.id d))))

  -- On valid rows, with a new id, existing repositories and a stored author: if no pull request between the
  -- branches is open, the new row, with the next number, is stored and returned.
  pub create_pull_request_lem :
      IsValid d
      → CanAdd
      → open_pulls ≡ []
      → run (create_pull_request new_id now repo author_id payload) d
        ≡ (ok created, add_pull created d)
  unfolding create_pull_request get_pr_or_404 scalar_one_or_none found_or_404
  create_pull_request_lem v c e =
      rw e (rw (constraints-add_pull v c) (unfold add_pull in rw created_found refl))

  -- If pull requests between the branches are open, one raises ConflictError and several raise
  -- MultipleResultsFound; no row changes.
  pub create_pull_request_refused :
      (first : PullRequest) (others : List PullRequest)
      → open_pulls ≡ first ∷ others
      → run (create_pull_request new_id now repo author_id payload) d
        ≡ (err (if length others == 0 then conflict else multiple_results), d)
  unfolding create_pull_request scalar_one_or_none
  create_pull_request_refused first [] e = rw e refl
  create_pull_request_refused first (second ∷ others) e = rw e (ground arith)

  -- A stored pull request leaves the rows valid.
  pub add_pull-IsValid : IsValid d → CanAdd → IsValid (add_pull created d)
  add_pull-IsValid v c = record {
    constraints = constraints-add_pull v c;
    closing_times =
        unfold add_pull new_pull_request in
        All-snoc HasClosingTime d.pull_requests created v.closing_times refl;
  }
