-- ===== src/Accounts/Sessions.antt =====
-- backend/app/services/auth_service.py: refresh tokens, password changes and the second factor; and
-- the login routes of api/v1/auth.py.
use text.Mathlib.Text.{◌==◌ as str_eq}
use pandahub.Prelude.{
  ℕ, ◌+◌, Option, none, some, Bool, true, false, not, ◌&&◌, ◌||◌, String, if◌then◌else◌,
}
use pandahub.Exceptions.{Error.http, HttpStatus.malformed, HttpStatus.unauthenticated}
use pandahub.Session.{Exec, pure, raise, lift, query, or_raise, modify, commit, ◌>>=◌, ◌>>◌}
use pandahub.Table.{select, scalar_one_or_none, update_where, delete_where}
use pandahub.Accounts.Store.{
  User, RefreshToken, AccountStore, Secrets, satisfies_constraints, change_user, find_user,
  one_user,
}
use pandahub.Accounts.{
  password_reset_ttl, add_reset_token, end_sessions, set_password, set_two_factor, is_expired_at,
  checked_reset, set_used, set_revoked, password_matches, authenticate_password,
  issue_two_factor_challenge, verify_two_factor_challenge, issue_token_pair,
}

-- The answer to a login.
pub data LoginAnswer : Type 0 where
  token_pair : (access_token refresh_token : String) → LoginAnswer
  two_factor_challenge : (challenge_token : String) → LoginAnswer

-- UPDATE refresh_tokens SET revoked WHERE the row: the hash is unique.
unfoldable pub revoke : (token_hash : String) → AccountStore → AccountStore
revoke token_hash d = record d {
  refresh_tokens = update_where (λ t. str_eq t.token_hash token_hash) set_revoked d.refresh_tokens;
}

unfoldable pub use_reset_token : (token_hash : String) → AccountStore → AccountStore
use_reset_token token_hash d = record d {
  reset_tokens = update_where (λ t. str_eq t.token_hash token_hash) set_used d.reset_tokens;
}

-- if user is None or not user.is_active
unfoldable pub active_or_401 : Option User → Exec AccountStore User
active_or_401 none = raise (http unauthenticated)
active_or_401 (some user) = do or_raise (not user.is_active) (http unauthenticated); pure user

module _ (secrets : Secrets) where
  unfoldable pub rotate_found :
      (now refresh_ttl : ℕ)
      → (new_raw : String) → Option RefreshToken
      → Exec AccountStore (String × String)
  rotate_found now refresh_ttl new_raw none = raise (http unauthenticated)
  rotate_found now refresh_ttl new_raw (some row) =
      if row.revoked || is_expired_at now row.expires_at
      then (do
        modify (end_sessions row.user_id)
        commit satisfies_constraints
        raise (http unauthenticated))
      else (do
        owner ← find_user row.user_id
        user ← active_or_401 owner
        modify (revoke row.token_hash)
        issue_token_pair secrets now refresh_ttl new_raw user.id row.device_info)

  unfoldable pub rotate_refresh_token :
      (now refresh_ttl : ℕ)
      → (new_raw raw_refresh_token : String) → Exec AccountStore (String × String)
  rotate_refresh_token now refresh_ttl new_raw raw_refresh_token = do
    rows ←
        query (λ d.
          select (λ t. str_eq t.token_hash (secrets.sha256 raw_refresh_token)) d.refresh_tokens)
    row ← lift (scalar_one_or_none rows)
    rotate_found now refresh_ttl new_raw row

  unfoldable pub remove_token : (raw_refresh_token : String) → AccountStore → AccountStore
  remove_token raw_refresh_token d = record d {
    refresh_tokens =
        delete_where (λ t. str_eq t.token_hash (secrets.sha256 raw_refresh_token)) d.refresh_tokens;
  }

  unfoldable pub revoke_refresh_token : (raw_refresh_token : String) → Exec AccountStore (Unit {0})
  revoke_refresh_token raw_refresh_token = do
    modify (remove_token raw_refresh_token)
    commit satisfies_constraints

  -- An unknown address gets no answer of its own.
  unfoldable pub reset_for :
      (now : ℕ) → (raw_token : String) → Option User → Exec AccountStore (Unit {0})
  reset_for now raw_token none = pure tt
  reset_for now raw_token (some user) = do
    modify (
        add_reset_token (record {
          user_id = user.id;
          token_hash = secrets.sha256 raw_token;
          expires_at = now + password_reset_ttl;
          used = false;
        }))
    commit satisfies_constraints

  unfoldable pub request_password_reset :
      (now : ℕ) → (raw_token email : String) → Exec AccountStore (Unit {0})
  request_password_reset now raw_token email = do
    rows ← query (λ d. select (λ u. str_eq u.email email) d.users)
    user ← lift (scalar_one_or_none rows)
    reset_for now raw_token user

  unfoldable pub confirm_password_reset :
      (now : ℕ) → (token new_password : String) → Exec AccountStore (Unit {0})
  confirm_password_reset now token new_password = do
    rows ← query (λ d. select (λ t. str_eq t.token_hash (secrets.sha256 token)) d.reset_tokens)
    found ← lift (scalar_one_or_none rows)
    row ← checked_reset now found
    owner ← find_user row.user_id
    user ← one_user owner
    modify (change_user user.id (set_password (secrets.hash_password new_password)))
    modify (use_reset_token row.token_hash)
    modify (end_sessions user.id)
    commit satisfies_constraints

  unfoldable pub change_password : User → (new_password : String) → Exec AccountStore (Unit {0})
  change_password user new_password = do
    modify (change_user user.id (set_password (secrets.hash_password new_password)))
    modify (end_sessions user.id)
    commit satisfies_constraints

  unfoldable pub enable_two_factor :
      (now : ℕ) → User → (raw_secret totp_code : String) → Exec AccountStore (Unit {0})
  enable_two_factor now user raw_secret totp_code = do
    or_raise (not (secrets.verify_totp now raw_secret totp_code)) (http malformed)
    modify (change_user user.id (set_two_factor (some (secrets.encrypt_secret raw_secret)) true))
    commit satisfies_constraints

  -- The code against the stored secret, if the second factor is enabled.
  unfoldable pub code_matches :
      (now : ℕ) → (enabled : Bool) → (secret : Option String) → (totp_code : String) → Bool
  code_matches now enabled none totp_code = false
  code_matches now enabled (some secret) totp_code =
      enabled && secrets.verify_totp now (secrets.decrypt_secret secret) totp_code

  unfoldable pub disable_two_factor :
      (now : ℕ) → User → (password totp_code : String) → Exec AccountStore (Unit {0})
  disable_two_factor now user password totp_code = do
    or_raise (not (password_matches secrets password user.hashed_password)) (http malformed)
    or_raise
        (not (code_matches now user.two_factor_enabled user.two_factor_secret_encrypted totp_code))
        (http malformed)
    modify (change_user user.id (set_two_factor none false))
    commit satisfies_constraints

  unfoldable pub verify_totp_for_login : (now : ℕ) → User → (totp_code : String) → Bool
  verify_totp_for_login now user totp_code =
      code_matches now user.two_factor_enabled user.two_factor_secret_encrypted totp_code

  unfoldable pub answer_login :
      (now refresh_ttl : ℕ) → (new_raw : String) → User → Exec AccountStore LoginAnswer
  answer_login now refresh_ttl new_raw user =
      if user.two_factor_enabled
      then pure (two_factor_challenge (issue_two_factor_challenge secrets user))
      else (do
        (access, refresh) ← issue_token_pair secrets now refresh_ttl new_raw user.id none
        pure (token_pair access refresh))

  unfoldable pub login :
      (now refresh_ttl : ℕ)
      → (new_raw username_or_email password : String) → Exec AccountStore LoginAnswer
  login now refresh_ttl new_raw username_or_email password = do
    user ← authenticate_password secrets username_or_email password
    answer_login now refresh_ttl new_raw user

  unfoldable pub checked_code :
      (now : ℕ) → (totp_code : String) → Option User → Exec AccountStore User
  checked_code now totp_code none = raise (http malformed)
  checked_code now totp_code (some user) = do
    or_raise (not (verify_totp_for_login now user totp_code)) (http malformed)
    pure user

  unfoldable pub login_two_factor :
      (now refresh_ttl : ℕ)
      → (new_raw challenge_token totp_code : String) → Exec AccountStore LoginAnswer
  login_two_factor now refresh_ttl new_raw challenge_token totp_code = do
    user_id ← verify_two_factor_challenge secrets challenge_token
    found ← find_user user_id
    user ← checked_code now totp_code found
    (access, refresh) ← issue_token_pair secrets now refresh_ttl new_raw user.id none
    pure (token_pair access refresh)
