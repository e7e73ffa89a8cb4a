-- ===== src/Pulls/Lists.antt =====
-- pr_service.py: `list_pull_requests`.
use pandahub.Prelude.{
  ◌≤◌, ℕ, ◌-◌, ◌*◌, ◌≤◌, ◌<◌, min, ◌≡◌, refl, ap, ◌∙◌, Bool, true, List, ◌&&◌, All, length, ltb,
  ◌==◌,
}
use pandahub.Exceptions.{ok}
use pandahub.Session.{run}
use pandahub.Table.{select, order_by, paginate}
use pandahub.Table.Laws.{
  In, In-select, select-All, All-order_by, All-paginate, length-paginate, length-order_by,
}
use pandahub.Table.Pages.{no_bad_offset, In-paginate, In-order_by}
use pandahub.Enums.{PullRequestState, is_pull_request_state}
use pandahub.Pulls.Store.{PullRequest, PullStore}
use pandahub.Pulls.{list_pull_requests}

module _ (d : PullStore) (repo_id : ℕ) (state : PullRequestState) where
  abbrev matches : PullRequest → Bool
  matches pr = pr.repository_id == repo_id && is_pull_request_state pr.state state

  abbrev later : PullRequest → PullRequest → Bool
  later a b = ltb b.created_at a.created_at

  -- A page of a positive size holds only pull requests of the repository in the state that was
  -- asked for, as many as fit on it of those that are left after the pages before; the total
  -- counts all of them, and each of them stands on some page. Pages are counted from 1.
  pub list_pull_requests_lem :
      (per_page : ℕ)
      → 0 < per_page
      → (listed : (page : ℕ) → List PullRequest) × (total : ℕ) × ((page : ℕ)
          → 1 ≤ page
          → (run (list_pull_requests repo_id state page per_page) d ≡ (ok (listed page, total), d))
            × All
                (λ pr. (pr.repository_id == repo_id && is_pull_request_state pr.state state) ≡ true)
                (listed page)
            × (length (listed page) ≡ min per_page (total - (page - 1) * per_page)))
        × ((pr : PullRequest)
            → In pr d.pull_requests
            → (pr.repository_id == repo_id && is_pull_request_state pr.state state) ≡ true
            → (page : ℕ) × (1 ≤ page) × In pr (listed page))
  unfolding list_pull_requests
  list_pull_requests_lem per_page pos =
      let base : List PullRequest = select matches d.pull_requests in
      (
        λ page. paginate page per_page (order_by later base),
        length base,
        λ page first. (
          rw (no_bad_offset page per_page first) refl,
          All-paginate (λ pr. matches pr ≡ true) page per_page _
              (All-order_by (λ pr. matches pr ≡ true) later base
                (select-All matches d.pull_requests)),
          length-paginate page per_page (order_by later base)
              ∙ ap (λ n. min per_page (n - (page - 1) * per_page)) (length-order_by later base),
        ),
        λ pr i t.
            In-paginate per_page (order_by later base) pr pos
              (In-order_by later base pr (In-select matches d.pull_requests {x = pr} t i)),
      )
