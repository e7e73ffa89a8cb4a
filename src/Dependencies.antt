-- ===== src/Dependencies.antt =====
-- backend/app/api/dependencies.py: who calls, which repository is meant, and the gate of a route.
-- The token library is the parameter Codecs of GitAuth.
pub mod Laws
pub mod Challenge
mod Tests
use text.Mathlib.Text.{◌==◌ as str_eq}
use pandahub.Prelude.{
  ℕ, Option, none, some, Bool, true, false, not, ◌&&◌, String, map, is_some, ◌==◌, if◌then◌else◌,
}
use pandahub.Exceptions.{
  Error, Error.http, Error.not_found, HttpStatus, HttpStatus.unauthenticated, HttpStatus.forbidden,
  Result, ok, err,
}
use pandahub.Session.{Session, Exec, pure, raise, lift, query, or_raise, ◌>>=◌, ◌>>◌}
use pandahub.Table.{select, scalar_one_or_none}
use pandahub.Enums.{PermissionLevel}
use pandahub.Permissions.{require_repo_permission}
use pandahub.GitAuth.{Claims, Codecs, decode_access_token}
use pandahub.Repos.Store.{User, Repository, RepoStore, for_resolver}
use pandahub.Repos.{user_named, organization_named, repository_of_user, repository_of_organization}

-- payload.get("purpose") == "2fa_challenge"
unfoldable pub is_challenge : Option String → Bool
is_challenge none = false
is_challenge (some purpose) = str_eq purpose "2fa_challenge"

unfoldable pub user_or_401 : Option User → Exec RepoStore User
user_or_401 none = raise (http unauthenticated)
user_or_401 (some user) = pure user

unfoldable pub user_by_id : Option ℕ → Exec RepoStore User
user_by_id none = raise (http unauthenticated)
user_by_id (some user_id) = do
  rows ← query (λ d. select (λ u. u.id == user_id) d.users)
  user ← lift (scalar_one_or_none rows)
  user_or_401 user

module _ (codecs : Codecs) where
  -- uuid.UUID(payload["sub"])
  unfoldable pub subject_id : Option String → Option ℕ
  subject_id none = none
  subject_id (some sub) = codecs.parse_uuid sub

  unfoldable pub user_of_claims : Option Claims → Exec RepoStore User
  user_of_claims none = raise (http unauthenticated)
  user_of_claims (some claims) = do
    or_raise (is_challenge claims.purpose) (http unauthenticated)
    user_by_id (subject_id claims.sub)

  unfoldable pub get_current_user : (token : Option String) → Exec RepoStore User
  get_current_user none = raise (http unauthenticated)
  get_current_user (some token) = user_of_claims (decode_access_token codecs token)

  unfoldable pub get_current_active_user : (token : Option String) → Exec RepoStore User
  get_current_active_user token = do
    user ← get_current_user token
    or_raise (not user.is_active) (http forbidden)
    pure user

  -- The addresses need no confirmation in development.
  unfoldable pub get_current_verified_user :
      (is_development : Bool) → (token : Option String) → Exec RepoStore User
  get_current_verified_user is_development token = do
    user ← get_current_active_user token
    or_raise (not is_development && not user.is_verified) (http forbidden)
    pure user

  -- except HTTPException: return None
  unfoldable pub none_if_http : Result User → Exec RepoStore (Option User)
  none_if_http (ok user) = pure (some user)
  none_if_http (err (http status)) = pure none
  none_if_http (err e) = raise e

  unfoldable pub get_optional_current_user : (token : Option String) → Exec RepoStore (Option User)
  get_optional_current_user none s = (ok none, s)
  get_optional_current_user (some token) s =
      let (user, s') = get_current_user (some token) s in none_if_http user s'

-- Without a user of the name, an organization is asked for.
unfoldable pub organization_unless : (owner : String) → Option ℕ → Exec RepoStore (Option ℕ)
organization_unless owner (some user_id) = pure none
organization_unless owner none = organization_named owner

unfoldable pub repository_of_owner :
    (owner_user_id owner_org_id : Option ℕ) → (repo : String) → Exec RepoStore (Option Repository)
repository_of_owner (some u) owner_org_id repo = repository_of_user u repo
repository_of_owner none (some o) repo = repository_of_organization o repo
repository_of_owner none none repo = raise not_found

unfoldable pub repository_or_404 : Option Repository → Exec RepoStore Repository
repository_or_404 none = raise not_found
repository_or_404 (some repository) = pure repository

unfoldable pub get_repository : (owner repo : String) → Exec RepoStore Repository
get_repository owner repo = do
  owner_user_id ← user_named owner
  owner_org_id ← organization_unless owner owner_user_id
  repository ← repository_of_owner owner_user_id owner_org_id repo
  repository_or_404 repository

-- user.id if user is not None else None
unfoldable pub user_id_of : Option User → Option ℕ
user_id_of none = none
user_id_of (some user) = some user.id

-- The check that a route declares, on the repository and the caller of the request.
unfoldable pub check_repo_permission :
    Codecs
    → (minimum : PermissionLevel) → (allow_anonymous : Bool) → (token : Option String) → Repository
    → Exec RepoStore PermissionLevel
check_repo_permission codecs minimum allow_anonymous token repository = do
  user ← get_optional_current_user codecs token
  access ← query (λ d. d.access)
  lift (
      require_repo_permission access minimum allow_anonymous (user_id_of user)
        (for_resolver repository))
