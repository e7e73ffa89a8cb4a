-- ===== src/Pulls/Store.antt =====
-- backend/app/models/pull_request.py, the payloads of schemas/pr_schema.py, and the queries that
-- pr_service.py sends.
use text.Mathlib.Text.{◌==◌ as str_eq}
use mathlib.Core.Option.{get_or}
use pandahub.Prelude.{
  ℕ, ◌+◌, Option, none, some, Bool, true, ◌&&◌, String, List, map, any, all, ◌==◌,
}
use pandahub.Exceptions.{Error.not_found}
use pandahub.Session.{Exec, query, lift, raise, pure, ◌>>=◌}
use pandahub.Table.{select, scalar_one_or_none, update_where, unique, max_of}
use pandahub.Enums.{PullRequestState, open_, ReviewState, is_pull_request_state}
use pandahub.Permissions.{Repository}

pub record PullRequest : Type 0 where
  pub id : ℕ
  pub repository_id : ℕ
  pub number : ℕ
  pub title : String
  pub description : Option String
  pub state : PullRequestState
  pub author_id : Option ℕ
  pub source_branch : String
  pub target_branch : String
  pub source_repository_id : ℕ
  pub is_draft : Bool
  pub merged_at : Option ℕ
  pub merged_by_id : Option ℕ
  pub merge_commit_sha : Option ℕ
  pub closed_at : Option ℕ
  pub created_at : ℕ

pub record PrReview : Type 0 where
  pub id : ℕ
  pub pull_request_id : ℕ
  pub reviewer_id : Option ℕ
  pub state : ReviewState
  pub body : Option String

pub record PrComment : Type 0 where
  pub id : ℕ
  pub pull_request_id : ℕ
  pub author_id : Option ℕ
  pub body : String
  pub created_at : ℕ

pub record PullRequestCreate : Type 0 where
  pub title : String
  pub description : Option String
  pub source_branch : String
  pub target_branch : String
  pub source_repository_id : Option ℕ
  pub is_draft : Bool

pub record PullRequestUpdate : Type 0 where
  pub title : Option String
  pub description : Option String
  pub state : Option PullRequestState
  pub is_draft : Option Bool

-- The users that the foreign keys refer to.
pub record User : Type 0 where
  pub id : ℕ

-- The tables that the service reads and writes.
pub record PullStore : Type 0 where
  pub pull_requests : List PullRequest
  pub comments : List PrComment
  pub reviews : List PrReview
  pub repositories : List Repository
  pub users : List User

-- uq_pr_number_per_repo
unfoldable pub same_number : PullRequest → PullRequest → Bool
same_number a b = a.repository_id == b.repository_id && a.number == b.number

unfoldable pub same_id : PullRequest → PullRequest → Bool
same_id a b = a.id == b.id

-- The foreign keys of `source_repository_id` and `repository_id`.
unfoldable pub has_source : List Repository → PullRequest → Bool
has_source repositories pr = any (λ r. r.id == pr.source_repository_id) repositories

unfoldable pub has_target : List Repository → PullRequest → Bool
has_target repositories pr = any (λ r. r.id == pr.repository_id) repositories

-- The foreign keys of `author_id` and `merged_by_id`, which may be NULL.
unfoldable pub has_user : List User → ℕ → Bool
has_user users id = any (λ u. u.id == id) users

unfoldable pub null_or_user : List User → Option ℕ → Bool
null_or_user users none = true
null_or_user users (some id) = has_user users id

unfoldable pub has_author : List User → PullRequest → Bool
has_author users pr = null_or_user users pr.author_id

unfoldable pub has_merger : List User → PullRequest → Bool
has_merger users pr = null_or_user users pr.merged_by_id

unfoldable pub people_valid : List User → List PullRequest → Bool
people_valid users prs = all (has_author users) prs && all (has_merger users) prs

-- The constraints on the pull requests, which the database checks when it commits. Those on comments
-- and reviews are left out.
unfoldable pub satisfies_constraints : PullStore → Bool
satisfies_constraints d =
    unique same_id d.pull_requests
    && (unique same_number d.pull_requests
        && (all (has_source d.repositories) d.pull_requests
            && (all (has_target d.repositories) d.pull_requests
                && people_valid d.users d.pull_requests)))

unfoldable pub has_number : (repo_id number : ℕ) → PullRequest → Bool
has_number repo_id number pr = pr.repository_id == repo_id && pr.number == number

unfoldable pub in_repository : ℕ → PullRequest → Bool
in_repository repo_id pr = pr.repository_id == repo_id

-- (max_number or 0) + 1
unfoldable pub assign_next_number : ℕ → PullStore → ℕ
assign_next_number repo_id d =
    get_or (max_of (map (λ pr. pr.number) (select (in_repository repo_id) d.pull_requests))) 0 + 1

unfoldable pub found_or_404 : Option PullRequest → Exec PullStore PullRequest
found_or_404 none = raise not_found
found_or_404 (some pr) = pure pr

unfoldable pub get_pr_or_404 : (repo_id number : ℕ) → Exec PullStore PullRequest
get_pr_or_404 repo_id number = do
  rows ← query (λ d. select (has_number repo_id number) d.pull_requests)
  found ← lift (scalar_one_or_none rows)
  found_or_404 found

-- An open pull request between the branches of the payload.
unfoldable pub is_open_for : (repo_id source_repo_id : ℕ) → PullRequestCreate → PullRequest → Bool
is_open_for repo_id source_repo_id payload pr =
    pr.repository_id == repo_id
    && (pr.source_repository_id == source_repo_id
        && (str_eq pr.source_branch payload.source_branch
            && (str_eq pr.target_branch payload.target_branch
                && is_pull_request_state pr.state open_)))

-- UPDATE pull_requests SET … WHERE id: what a flush of a changed object sends.
unfoldable pub update_pull : ℕ → (PullRequest → PullRequest) → PullStore → PullStore
update_pull id change d = record d {
  pull_requests = update_where (λ pr. pr.id == id) change d.pull_requests;
}
