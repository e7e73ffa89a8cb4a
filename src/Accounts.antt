-- ===== src/Accounts.antt =====
-- backend/app/services/auth_service.py: registration, passwords, sessions and the second factor.
-- A session of a user is a refresh token. The mails that the service sends are left out: their
-- failures are swallowed.
pub mod Store
pub mod Sessions
pub mod Rotation
pub mod Passwords
pub mod Login
mod Tests
use text.Mathlib.Text.{◌==◌ as str_eq}
use pandahub.Prelude.{
  ℕ, ◌+◌, Option, none, some, Bool, true, false, not, ◌&&◌, ◌||◌, String, List, [], ◌∷◌, ◌++◌, ltb,
  is_some, ◌==◌, if◌then◌else◌,
}
use pandahub.Exceptions.{
  Error.http, Error.other_exception, HttpStatus, HttpStatus.malformed, HttpStatus.unauthenticated,
  HttpStatus.forbidden, HttpStatus.taken, Result, ok, err,
}
use pandahub.Session.{Exec, pure, raise, lift, query, or_raise, modify, flush, commit, ◌>>=◌, ◌>>◌}
use pandahub.Table.{select, scalar_one_or_none, update_where, delete_where}
use pandahub.GitAuth.{Claims, if_access}
use pandahub.Dependencies.{is_challenge}
use pandahub.Accounts.Store.{
  User, RefreshToken, EmailVerificationToken, PasswordResetToken, UserRegister, AccountStore,
  Secrets, satisfies_constraints, change_user, find_user, one_user,
}

-- EMAIL_VERIFICATION_TTL and PASSWORD_RESET_TTL, in seconds
abbrev pub email_verification_ttl : ℕ
email_verification_ttl = 86400

abbrev pub password_reset_ttl : ℕ
password_reset_ttl = 3600

unfoldable pub new_user : (user_id : ℕ) → (hashed_password : String) → UserRegister → User
new_user user_id hashed_password payload = record {
  id = user_id;
  username = payload.username;
  email = payload.email;
  hashed_password = some hashed_password;
  full_name = payload.full_name;
  is_active = true;
  is_verified = false;
  two_factor_enabled = false;
  two_factor_secret_encrypted = none;
}

unfoldable pub add_user : User → AccountStore → AccountStore
add_user user d = record d { users = d.users ++ user ∷ [] }

unfoldable pub add_verification_token : EmailVerificationToken → AccountStore → AccountStore
add_verification_token token d = record d {
  verification_tokens = d.verification_tokens ++ token ∷ [];
}

unfoldable pub add_refresh_token : RefreshToken → AccountStore → AccountStore
add_refresh_token token d = record d { refresh_tokens = d.refresh_tokens ++ token ∷ [] }

unfoldable pub add_reset_token : PasswordResetToken → AccountStore → AccountStore
add_reset_token token d = record d { reset_tokens = d.reset_tokens ++ token ∷ [] }

-- delete(RefreshToken).where(RefreshToken.user_id == …): every session of the user ends.
unfoldable pub end_sessions : (user_id : ℕ) → AccountStore → AccountStore
end_sessions user_id d = record d {
  refresh_tokens = delete_where (λ t. t.user_id == user_id) d.refresh_tokens;
}

unfoldable pub drop_verification_tokens : (user_id : ℕ) → AccountStore → AccountStore
drop_verification_tokens user_id d = record d {
  verification_tokens = delete_where (λ t. t.user_id == user_id) d.verification_tokens;
}

unfoldable pub set_verified : User → User
set_verified user = record user { is_verified = true }

unfoldable pub set_password : (hashed_password : String) → User → User
set_password hashed_password user = record user { hashed_password = some hashed_password }

unfoldable pub set_two_factor : Option String → Bool → User → User
set_two_factor secret enabled user = record user {
  two_factor_secret_encrypted = secret;
  two_factor_enabled = enabled;
}

unfoldable pub is_expired_at : (now expires_at : ℕ) → Bool
is_expired_at now expires_at = ltb expires_at now

-- if record is None or record.expires_at < now
unfoldable pub checked_verification :
    (now : ℕ) → Option EmailVerificationToken → Exec AccountStore EmailVerificationToken
checked_verification now none = raise (http malformed)
checked_verification now (some token) = do
  or_raise (is_expired_at now token.expires_at) (http malformed)
  pure token

unfoldable pub checked_reset :
    (now : ℕ) → Option PasswordResetToken → Exec AccountStore PasswordResetToken
checked_reset now none = raise (http malformed)
checked_reset now (some token) = do
  or_raise (token.used || is_expired_at now token.expires_at) (http malformed)
  pure token

unfoldable pub set_used : PasswordResetToken → PasswordResetToken
set_used token = record token { used = true }

unfoldable pub set_revoked : RefreshToken → RefreshToken
set_revoked token = record token { revoked = true }

unfoldable pub id_or_error : Option ℕ → Result ℕ
id_or_error none = err other_exception
id_or_error (some id) = ok id

module _ (secrets : Secrets) where
  unfoldable pub issue_email_verification_token :
      (now user_id : ℕ) → (raw_token : String) → Exec AccountStore (Unit {0})
  issue_email_verification_token now user_id raw_token = modify (
      add_verification_token (record {
        user_id = user_id;
        token_hash = secrets.sha256 raw_token;
        expires_at = now + email_verification_ttl;
      }))

  unfoldable pub register_user :
      (now user_id : ℕ) → (raw_token : String) → UserRegister → Exec AccountStore User
  register_user now user_id raw_token payload = do
    rows ← query (λ d.
        select (λ u. str_eq u.username payload.username || str_eq u.email payload.email) d.users)
    existing ← lift (scalar_one_or_none rows)
    or_raise (is_some existing) (http taken)
    modify (add_user (new_user user_id (secrets.hash_password payload.password) payload))
    flush satisfies_constraints
    issue_email_verification_token now user_id raw_token
    commit satisfies_constraints
    pure (new_user user_id (secrets.hash_password payload.password) payload)

  unfoldable pub verify_email : (now : ℕ) → (token : String) → Exec AccountStore (Unit {0})
  verify_email now token = do
    rows ←
        query (λ d. select (λ t. str_eq t.token_hash (secrets.sha256 token)) d.verification_tokens)
    found ← lift (scalar_one_or_none rows)
    row ← checked_verification now found
    owner ← find_user row.user_id
    user ← one_user owner
    modify (change_user user.id set_verified)
    modify (drop_verification_tokens user.id)
    commit satisfies_constraints

  -- An address that is unknown or confirmed gets no answer of its own.
  unfoldable pub resend_to :
      (now : ℕ) → (raw_token : String) → Option User → Exec AccountStore (Unit {0})
  resend_to now raw_token none = pure tt
  resend_to now raw_token (some user) = if user.is_verified then pure tt else do
    modify (drop_verification_tokens user.id)
    issue_email_verification_token now user.id raw_token
    commit satisfies_constraints

  unfoldable pub resend_verification :
      (now : ℕ) → (raw_token email : String) → Exec AccountStore (Unit {0})
  resend_verification now raw_token email = do
    rows ← query (λ d. select (λ u. str_eq u.email email) d.users)
    user ← lift (scalar_one_or_none rows)
    resend_to now raw_token user

  -- user.hashed_password is not None and verify_password(password, user.hashed_password)
  unfoldable pub password_matches : (password : String) → Option String → Bool
  password_matches password none = false
  password_matches password (some hashed) = secrets.verify_password password hashed

  unfoldable pub password_checked : (password : String) → Option User → Exec AccountStore User
  password_checked password none = raise (http unauthenticated)
  password_checked password (some user) = do
    or_raise (not (password_matches password user.hashed_password)) (http unauthenticated)
    or_raise (not user.is_active) (http forbidden)
    pure user

  unfoldable pub authenticate_password :
      (username_or_email password : String) → Exec AccountStore User
  authenticate_password username_or_email password = do
    rows ← query (λ d.
        select (λ u. str_eq u.username username_or_email || str_eq u.email username_or_email)
          d.users)
    user ← lift (scalar_one_or_none rows)
    password_checked password user

  -- create_access_token, whose times of issue and expiry the library checks
  unfoldable pub create_access_token : (user_id : ℕ) → (purpose : Option String) → String
  create_access_token user_id purpose =
      secrets.jwt_encode
        (record { sub = some (secrets.uuid_text user_id); type = some "access"; purpose = purpose })

  unfoldable pub issue_two_factor_challenge : User → String
  issue_two_factor_challenge user = create_access_token user.id (some "2fa_challenge")

  -- uuid.UUID(payload["sub"]): a KeyError or a ValueError is nobody's.
  unfoldable pub subject_or_error : Option String → Result ℕ
  subject_or_error none = err other_exception
  subject_or_error (some sub) = id_or_error (secrets.parse_uuid sub)

  unfoldable pub challenge_user : Option Claims → Exec AccountStore ℕ
  challenge_user none = raise (http malformed)
  challenge_user (some claims) = do
    or_raise (not (is_challenge claims.purpose)) (http malformed)
    lift (subject_or_error claims.sub)

  unfoldable pub verify_two_factor_challenge : (challenge_token : String) → Exec AccountStore ℕ
  verify_two_factor_challenge challenge_token =
      challenge_user (if_access (secrets.jwt_decode challenge_token))

  unfoldable pub issue_token_pair :
      (now refresh_ttl : ℕ)
      → (raw_refresh : String) → (user_id : ℕ) → (device_info : Option String)
      → Exec AccountStore (String × String)
  issue_token_pair now refresh_ttl raw_refresh user_id device_info = do
    modify (
        add_refresh_token (record {
          user_id = user_id;
          token_hash = secrets.sha256 raw_refresh;
          device_info = device_info;
          expires_at = now + refresh_ttl;
          revoked = false;
        }))
    commit satisfies_constraints
    pure (create_access_token user_id none, raw_refresh)
