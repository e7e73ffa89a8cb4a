-- ===== src/GitAuth.antt =====
-- backend/app/git_engine/auth.py, with the rows of models/user.py that it reads and the two helpers
-- of core/security.py that it calls. The token library, base64 and SHA-256 are parameters.
pub mod Laws
pub mod Token
pub mod Tokens
mod Tests
use Prim.Native.Char.{code}
use text.Mathlib.Text.{◌==◌ as str_eq}
use pandahub.Prelude.{
  ℕ, Option, none, some, Bool, true, false, not, ◌&&◌, ◌||◌, String, List, [], ◌∷◌, any, ltb, ◌==◌,
  if◌then◌else◌,
}
use pandahub.Exceptions.{Result, ok, err}
use pandahub.Session.{
  Exec, Session, pure, lift, query, modify, commit, rollback, try_except, ◌>>=◌, ◌>>◌,
}
use pandahub.Table.{select, scalar_one_or_none, update_where, unique}

pub record User : Type 0 where
  pub id : ℕ
  pub is_active : Bool

pub record PersonalAccessToken : Type 0 where
  pub id : ℕ
  pub user_id : ℕ
  pub token_hash : String
  pub scopes : List String
  pub last_used_at : Option ℕ
  pub expires_at : Option ℕ
  pub revoked : Bool

pub record AuthStore : Type 0 where
  pub users : List User
  pub tokens : List PersonalAccessToken

-- The claims of a JWT that are read.
pub record Claims : Type 0 where
  pub sub : Option String
  pub type : Option String
  pub purpose : Option String

pub record Codecs : Type 0 where
  -- jwt.decode with the secret key: none if it raises JWTError
  pub jwt_decode : String → Option Claims
  -- uuid.UUID: none if it raises ValueError
  pub parse_uuid : String → Option ℕ
  -- base64.b64decode and the UTF-8 decoding: none if one of them raises
  pub b64decode : String → Option String
  -- hashlib.sha256(…).hexdigest()
  pub sha256 : String → String

unfoldable pub same_user : User → User → Bool
same_user a b = a.id == b.id

unfoldable pub same_hash : PersonalAccessToken → PersonalAccessToken → Bool
same_hash a b = str_eq a.token_hash b.token_hash

unfoldable pub satisfies_constraints : AuthStore → Bool
satisfies_constraints d = unique same_user d.users && unique same_hash d.tokens

-- `s.startswith(prefix)` and `s[len(prefix):]`
unfoldable pub strip_prefix : (prefix s : String) → Option String
strip_prefix String.[] s = some s
strip_prefix (String.◌∷◌ c prefix) String.[] = none
strip_prefix (String.◌∷◌ c prefix) (String.◌∷◌ x s) =
    let rest = strip_prefix prefix s in if code c == code x then rest else none

-- `_, _, rest = s.partition(":")`
unfoldable pub after_colon : String → String
after_colon String.[] = ""
after_colon (String.◌∷◌ c s) = let rest = after_colon s in if code c == 58 then s else rest

unfoldable pub is_access : Option String → Bool
is_access none = false
is_access (some type) = str_eq type "access"

-- if payload.get("type") != "access": raise JWTError
unfoldable pub if_access : Option Claims → Option Claims
if_access none = none
if_access (some claims) = if is_access claims.type then some claims else none

-- payload["sub"]: every error that the decoding and the access raise is passed over.
unfoldable pub subject : Option Claims → Option String
subject none = none
subject (some claims) = claims.sub

unfoldable pub find_user : ℕ → Exec AuthStore (Option User)
find_user id = do
  rows ← query (λ d. select (λ u. u.id == id) d.users)
  lift (scalar_one_or_none rows)

-- `user if user and user.is_active else None`
unfoldable pub if_active : Option User → Option User
if_active none = none
if_active (some user) = if user.is_active then some user else none

-- `pat.expires_at is not None and pat.expires_at < now`
unfoldable pub is_expired : (now : ℕ) → PersonalAccessToken → Bool
is_expired now pat = elim pat.expires_at [ none ↦ false | some t ↦ ltb t now ]

unfoldable pub has_scope : List String → String → Bool
has_scope scopes scope = any (λ s. str_eq s scope) scopes

unfoldable pub permits : (required_scope : String) → PersonalAccessToken → Bool
permits required_scope pat =
    has_scope pat.scopes "repo"
    || (has_scope pat.scopes "repo:admin" || has_scope pat.scopes required_scope)

unfoldable pub set_last_used : (now : ℕ) → PersonalAccessToken → PersonalAccessToken
set_last_used now pat = record pat { last_used_at = some now }

unfoldable pub touch : (now id : ℕ) → AuthStore → AuthStore
touch now id d = record d { tokens = update_where (λ t. t.id == id) (set_last_used now) d.tokens }

-- `last_used_at` is written best-effort.
unfoldable pub touch_and_return :
    (now : ℕ) → PersonalAccessToken → Option User → Exec AuthStore (Option User)
touch_and_return now pat none = pure none
touch_and_return now pat (some user) = do
  modify (touch now pat.id)
  try_except (commit satisfies_constraints) rollback
  pure (some user)

unfoldable pub use_token :
    (now : ℕ)
    → (required_scope : String) → Option PersonalAccessToken
    → Exec AuthStore (Option User)
use_token now required_scope none = pure none
use_token now required_scope (some pat) =
    if is_expired now pat || not (permits required_scope pat)
    then pure none
    else do user ← find_user pat.user_id; touch_and_return now pat (if_active user)

module _ (codecs : Codecs) where
  unfoldable pub decode_access_token : String → Option Claims
  decode_access_token token = if_access (codecs.jwt_decode token)

  unfoldable pub bearer_id : Option String → Option ℕ
  bearer_id none = none
  bearer_id (some sub) = codecs.parse_uuid sub

  unfoldable pub user_of_id : Option ℕ → Exec AuthStore (Option User)
  user_of_id none = pure none
  user_of_id (some id) = do user ← find_user id; pure (if_active user)

  -- 1. Bearer
  unfoldable pub bearer : Option String → Exec AuthStore (Option User)
  bearer none = pure none
  bearer (some token) = user_of_id (bearer_id (subject (decode_access_token token)))

  unfoldable pub hash_token : String → String
  hash_token token = codecs.sha256 token

  -- The token in the password field, if there is one.
  unfoldable pub password : Option String → Option String
  password none = none
  password (some encoded) = elim (codecs.b64decode encoded) [
    | none ↦ none
    | some decoded ↦
        let pat_raw = after_colon decoded in if str_eq pat_raw "" then none else some pat_raw
  ]

  unfoldable pub token_user :
      (now : ℕ) → (required_scope : String) → Option String → Exec AuthStore (Option User)
  token_user now required_scope none = pure none
  token_user now required_scope (some pat_raw) = do
    rows ←
        query
          (λ d. select (λ t. str_eq t.token_hash (hash_token pat_raw) && not t.revoked) d.tokens)
    pat ← lift (scalar_one_or_none rows)
    use_token now required_scope pat

  -- 2. Basic, when the header is not a good Bearer
  unfoldable pub basic_unless :
      (now : ℕ) → (required_scope header : String) → Option User → Exec AuthStore (Option User)
  basic_unless now required_scope header (some user) = pure (some user)
  basic_unless now required_scope header none =
      token_user now required_scope (password (strip_prefix "Basic " header))

  unfoldable pub authenticate_git_request :
      (now : ℕ)
      → (auth_header : Option String) → (required_scope : String) → Exec AuthStore (Option User)
  authenticate_git_request now none required_scope = pure none
  authenticate_git_request now (some header) required_scope = do
    user ← bearer (strip_prefix "Bearer " header)
    basic_unless now required_scope header user
