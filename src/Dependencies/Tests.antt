-- ===== src/Dependencies/Tests.antt =====
-- A store with a user, tokens for it, and the theorems on them.
use text.Mathlib.Text.{◌==◌ as str_eq}
use pandahub.Prelude.{◌≡◌, refl, inl, none, some, true, [], ◌∷◌, if◌then◌else◌}
use pandahub.Exceptions.{Error.http, HttpStatus.unauthenticated, ok, err}
use pandahub.Session.{Session, run, ◌>>=◌}
use pandahub.Table.{select, scalar_one_or_none, unique}
use pandahub.GitAuth
use pandahub.GitAuth.{
  Codecs, AuthStore, is_access, if_access, decode_access_token, strip_prefix, same_user, same_hash,
  authenticate_git_request,
}
use pandahub.Repos.Store.{User, RepoStore}
use pandahub.Repos.{get_repo_by_owner_and_name}
use pandahub.Dependencies.{
  is_challenge, user_or_401, user_by_id, subject_id, user_of_claims, get_current_user,
  get_current_active_user, repository_or_404, get_repository,
}
use pandahub.Dependencies.Laws.{IsTokenOf, get_repository_lem, get_current_active_user_source}
use pandahub.Dependencies.Challenge.{authenticate_git_request-challenge}

abbrev ann : User
ann = record { id = 20; username = "ann"; is_active = true; is_verified = true }

abbrev store : RepoStore
store = record {
  users = ann ∷ [];
  organizations = [];
  repositories = [];
  branches = [];
  stars = [];
  watchers = [];
  access = record {
    organization_members = [];
    collaborators = [];
    team_members = [];
    team_repositories = [];
  };
}

abbrev session : Session RepoStore
session = record { committed = store; current = store }

abbrev accounts : AuthStore
accounts = record { users = record { id = 20; is_active = true } ∷ []; tokens = [] }

abbrev full : GitAuth.Claims
full = record { sub = some "ann"; type = some "access"; purpose = none }

abbrev challenge : GitAuth.Claims
challenge = record full { purpose = some "2fa_challenge" }

abbrev codecs : Codecs
codecs = record {
  jwt_decode = λ t. if str_eq t "jwt" then some full else some challenge;
  parse_uuid = λ s. if str_eq s "ann" then some 20 else none;
  b64decode = λ s. none;
  sha256 = λ s. s;
}

program : Unit {0}
unfolding select scalar_one_or_none unique is_access if_access decode_access_token strip_prefix
    same_user same_hash GitAuth.satisfies_constraints is_challenge user_or_401 user_by_id subject_id
    user_of_claims get_current_user get_current_active_user
program = tt

ann_calls : (get_current_active_user codecs (some "jwt") session).0 ≡ ok ann
unfolding program
ann_calls = refl

get_current_active_user_source_example :
    IsTokenOf codecs (some "jwt") store ann × (ann.is_active ≡ true)
get_current_active_user_source_example =
    get_current_active_user_source codecs (some "jwt") session ann ann_calls

get_repository_lem_example :
    run (get_repository "ann" "site") store
    ≡ run (get_repo_by_owner_and_name "ann" "site" >>= repository_or_404) store
get_repository_lem_example = get_repository_lem "ann" "site" store

is_access_token : is_access challenge.type ≡ true
unfolding program
is_access_token = refl

is_first_factor : is_challenge challenge.purpose ≡ true
unfolding program
is_first_factor = refl

stripped : strip_prefix "Bearer " "Bearer half" ≡ some "half"
unfolding program
stripped = refl

accounts_valid : GitAuth.satisfies_constraints accounts ≡ true
unfolding program
accounts_valid = refl

authenticate_git_request-challenge_example :
    ((get_current_user codecs (some "half") session).0 ≡ err (http unauthenticated))
    × (run (authenticate_git_request codecs 50 (some "Bearer half") "repo:write") accounts
        ≡ (ok (some (record { id = 20; is_active = true })), accounts))
authenticate_git_request-challenge_example =
    authenticate_git_request-challenge codecs "half" "Bearer half" "repo:write" challenge 50 session
      accounts (record { id = 20; is_active = true }) "ann" refl is_access_token is_first_factor
      refl refl stripped accounts_valid (inl refl) refl
