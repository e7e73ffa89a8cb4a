-- ===== src/Pulls/Update.antt =====
-- pr_service.py: `update_pull_request`, on every branch.
use pandahub.Prelude.{ℕ, ◌≡◌, refl, ◌∙◌, true, false, [], ◌∷◌, arith, not, ◌&&◌, ◌==◌, ==_refl, all}
use pandahub.Exceptions.{Error.not_found, Error.permission_denied, Result, ok, err}
use pandahub.Session.{run}
use pandahub.Table.{select, scalar_one_or_none, update_where}
use pandahub.Table.Laws.{In}
use pandahub.Table.Keys.{
  unique-update_where, all-update_where, update_where_twice, select-update_where,
}
use pandahub.Enums.{PermissionLevel}
use pandahub.Pulls.Store.{
  has_target, has_author, has_merger, people_valid, PullRequest, PullRequestUpdate, PullStore,
  same_number, same_id, has_source, satisfies_constraints, has_number, found_or_404, get_pr_or_404,
  update_pull,
}
use pandahub.Pulls.{
  set_texts, set_state, changes_state, can_change_state, change_of_state, update_pull_request,
}
use pandahub.Pulls.Valid.{IsValid, select-number}

-- An update of a row that leaves its keys alone.
pub record KeepsKeys (f : PullRequest → PullRequest) : Type 0 where
  pub id : (pr : PullRequest) → (f pr).id ≡ pr.id
  pub repository : (pr : PullRequest) → (f pr).repository_id ≡ pr.repository_id
  pub number : (pr : PullRequest) → (f pr).number ≡ pr.number
  pub source : (pr : PullRequest) → (f pr).source_repository_id ≡ pr.source_repository_id
  pub author : (pr : PullRequest) → (f pr).author_id ≡ pr.author_id

module _ (f : PullRequest → PullRequest) (keeps : KeepsKeys f) where
  open keeps use {
    id as same_i, repository as same_r, number as same_n, source as same_s, author as same_a,
  }

  -- What is left to look at is who merged.
  pub constraints-update_pull :
      (i : ℕ) (d : PullStore)
      → all (has_merger d.users) (update_pull i f d).pull_requests
        ≡ all (has_merger d.users) d.pull_requests
      → satisfies_constraints (update_pull i f d) ≡ satisfies_constraints d
  unfolding satisfies_constraints update_pull people_valid same_id same_number has_source has_target
      has_author
  constraints-update_pull i d mergers = cc (
    mergers,
    unique-update_where same_id (λ pr. pr.id == i) f d.pull_requests (λ x y. rw same_i refl)
        (λ x y. rw same_i refl),
    unique-update_where same_number (λ pr. pr.id == i) f d.pull_requests
        (λ x y. rw (same_r, same_n) refl) (λ x y. rw (same_r, same_n) refl),
    all-update_where (has_source d.repositories) (λ pr. pr.id == i) f d.pull_requests
        (λ x. rw same_s refl),
    all-update_where (has_target d.repositories) (λ pr. pr.id == i) f d.pull_requests
        (λ x. rw same_r refl),
    all-update_where (has_author d.users) (λ pr. pr.id == i) f d.pull_requests
        (λ x. rw same_a refl),
  )

  has_number_kept :
      (repo_id number : ℕ) (x : PullRequest)
      → has_number repo_id number (f x) ≡ has_number repo_id number x
  unfolding has_number
  has_number_kept repo_id number x = rw (same_r, same_n) refl

  -- The query by number finds the updated row.
  pub select-updated :
      (d : PullStore) (pr : PullRequest)
      → select (has_number pr.repository_id pr.number) d.pull_requests ≡ pr ∷ []
      → select (has_number pr.repository_id pr.number) (update_pull pr.id f d).pull_requests
        ≡ f pr ∷ []
  unfolding update_pull update_where
  select-updated d pr e =
      select-update_where (has_number pr.repository_id pr.number) (λ r. r.id == pr.id) f
        d.pull_requests (has_number_kept pr.repository_id pr.number)
      ∙ rw e (rw ==_refl refl)

-- The update that a payload asks for.
abbrev pub updated : (now : ℕ) → PullRequestUpdate → PullRequest → PullRequest
updated now payload pr = change_of_state now payload (set_texts payload pr)

pub updated-KeepsKeys : (now : ℕ) (payload : PullRequestUpdate) → KeepsKeys (updated now payload)
unfolding change_of_state set_texts set_state
updated-KeepsKeys now payload = record {
  id = λ pr. ground arith;
  repository = λ pr. ground arith;
  number = λ pr. ground arith;
  source = λ pr. ground arith;
  author = λ pr. ground arith;
}

pub constraints-updated :
    (now i : ℕ) (payload : PullRequestUpdate) (d : PullStore)
    → satisfies_constraints (update_pull i (updated now payload) d) ≡ satisfies_constraints d
constraints-updated now i payload d =
    constraints-update_pull (updated now payload) (updated-KeepsKeys now payload) i d (
      unfold update_pull in
      all-update_where (has_merger d.users) (λ pr. pr.id == i) (updated now payload) d.pull_requests
        (λ x. unfold has_merger change_of_state set_texts set_state in ground arith))

-- The two flushes of the function are one update.
update_pull_twice :
    (i now : ℕ) (payload : PullRequestUpdate) (d : PullStore)
    → update_pull i (change_of_state now payload) (update_pull i (set_texts payload) d)
      ≡ update_pull i (updated now payload) d
unfolding update_pull set_texts
update_pull_twice i now payload d =
    rw
      (update_where_twice (λ pr. pr.id == i) (set_texts payload) (change_of_state now payload)
        d.pull_requests (λ x. refl))
      refl

module _ (now : ℕ) (d : PullStore) (v : IsValid d) (pr : PullRequest) (i : In pr d.pull_requests)
    (payload : PullRequestUpdate) (actor_id : ℕ) (actor_permission : PermissionLevel) where
  abbrev request : Result PullRequest × PullStore
  request =
      run (update_pull_request now pr.repository_id pr.number payload actor_id actor_permission) d

  -- On valid rows, a change of the state of a stored pull request by somebody who may not make it
  -- raises, and leaves every row as it was, the title and description of the same payload
  -- included.
  pub update_pull_request_denied :
      changes_state payload pr ≡ true
      → can_change_state actor_id actor_permission pr ≡ false
      → request ≡ (err permission_denied, d)
  unfolding update_pull_request get_pr_or_404 scalar_one_or_none found_or_404
  update_pull_request_denied c n = rw (select-number d pr v.constraints i) (rw (c, n) refl)

  -- On valid rows, an update of a stored pull request that leaves the state alone, or is made by
  -- somebody who may change it, is stored whole and returned.
  pub update_pull_request_lem :
      (changes_state payload pr && not (can_change_state actor_id actor_permission pr)) ≡ false
      → request ≡ (ok (updated now payload pr), update_pull pr.id (updated now payload) d)
  unfolding update_pull_request get_pr_or_404 scalar_one_or_none found_or_404
  update_pull_request_lem allowed = rw (select-number d pr v.constraints i) (
      rw allowed (
        rw (update_pull_twice pr.id now payload d) (
          rw (constraints-updated now pr.id payload d) (
            rw v.constraints (
              rw
                (select-updated (updated now payload) (updated-KeepsKeys now payload) d pr
                  (select-number d pr v.constraints i))
                refl)))))

module _ (now : ℕ) (d : PullStore) (repo_id number : ℕ) (payload : PullRequestUpdate) (actor_id : ℕ)
    (actor_permission : PermissionLevel) where
  pub update_pull_request_missing :
      select (has_number repo_id number) d.pull_requests ≡ []
      → run (update_pull_request now repo_id number payload actor_id actor_permission) d
        ≡ (err not_found, d)
  unfolding update_pull_request get_pr_or_404 scalar_one_or_none found_or_404
  update_pull_request_missing e = rw e refl
