-- ===== src/Pulls/Comments.antt =====
-- pr_service.py: `create_comment`, `list_comments` and `create_review`.
use pandahub.Prelude.{
  ℕ, ◌≡◌, refl, Option, some, Bool, true, String, List, [], ◌∷◌, ◌++◌, ltb, ◌==◌, ==_refl,
}
use pandahub.Exceptions.{ok}
use pandahub.Session.{run}
use pandahub.Table.{select, order_by, scalar_one_or_none}
use pandahub.Table.Laws.{In, In-select}
use pandahub.Table.Keys.{In-snoc}
use pandahub.Table.Pages.{In-order_by}
use pandahub.Enums.{ReviewState}
use pandahub.Pulls.Store.{
  PullRequest, PullStore, PrComment, PrReview, satisfies_constraints, get_pr_or_404, found_or_404,
}
use pandahub.Pulls.{create_comment, list_comments, create_review}
use pandahub.Pulls.Valid.{IsValid, select-number}

module _ (d : PullStore) (v : IsValid d) (pr : PullRequest) (i : In pr d.pull_requests)
    (new_id now user_id : ℕ) where
  abbrev commented : (body : String) → PrComment
  commented body = record {
    id = new_id;
    pull_request_id = pr.id;
    author_id = some user_id;
    body = body;
    created_at = now;
  }

  abbrev with_comment : String → PullStore
  with_comment body = record d { comments = d.comments ++ commented body ∷ [] }

  still_valid : (body : String) → satisfies_constraints (with_comment body) ≡ true
  unfolding satisfies_constraints
  still_valid body = v.constraints

  create_comment_stored :
      (body : String)
      → run (create_comment new_id now pr.repository_id pr.number user_id body) d
        ≡ (ok (commented body), with_comment body)
  unfolding create_comment get_pr_or_404 found_or_404 scalar_one_or_none
  create_comment_stored body = rw (select-number d pr v.constraints i) (rw (still_valid body) refl)

  -- On valid rows, a comment on a stored pull request is stored for it, and the next listing of
  -- its comments shows it.
  pub create_comment-list_comments :
      (body : String)
      → (stored : PullStore) × (comment : PrComment) × (listed : List PrComment) × (run
            (create_comment new_id now pr.repository_id pr.number user_id body)
            d
          ≡ (ok comment, stored))
        × (run (list_comments pr.repository_id pr.number) stored ≡ (ok listed, stored))
        × In comment listed
        × (comment.body ≡ body)
        × (stored.pull_requests ≡ d.pull_requests)
  unfolding list_comments get_pr_or_404 found_or_404 scalar_one_or_none
  create_comment-list_comments body =
      let on_pr : PrComment → Bool = λ c. c.pull_request_id == pr.id in
      (
        with_comment body,
        commented body,
        order_by (λ a b. ltb a.created_at b.created_at)
            (select on_pr (d.comments ++ commented body ∷ [])),
        create_comment_stored body,
        rw (select-number d pr v.constraints i) refl,
        In-order_by (λ a b. ltb a.created_at b.created_at) _ (commented body)
            (In-select on_pr (d.comments ++ commented body ∷ []) {x = commented body}
              (==_refl pr.id) (In-snoc d.comments (commented body))),
        refl,
        refl,
      )

  review_valid :
      (review : PrReview)
      → satisfies_constraints (record d { reviews = d.reviews ++ review ∷ [] }) ≡ true
  unfolding satisfies_constraints
  review_valid review = v.constraints

  -- A review is stored behind the others with the state that the reviewer gave; nothing else changes.
  pub create_review_lem :
      (state : ReviewState) (body : Option String)
      → (review : PrReview) × (run
            (create_review new_id pr.repository_id pr.number user_id state body)
            d
          ≡ (ok review, record d { reviews = d.reviews ++ review ∷ [] }))
        × (review.pull_request_id ≡ pr.id)
        × (review.reviewer_id ≡ some user_id)
        × (review.state ≡ state)
  unfolding create_review get_pr_or_404 found_or_404 scalar_one_or_none
  create_review_lem state body =
      let review : PrReview = record {
        id = new_id;
        pull_request_id = pr.id;
        reviewer_id = some user_id;
        state = state;
        body = body;
      } in
      (
        review,
        rw (select-number d pr v.constraints i) (rw (review_valid review) refl),
        refl,
        refl,
        refl,
      )
