-- ===== src/Accounts/Store.antt =====
-- backend/app/models/user.py as auth_service.py uses it, and the functions of core/security.py and
-- of pyotp, which are the parameter Secrets.
use text.Mathlib.Text.{◌==◌ as str_eq}
use pandahub.Prelude.{ℕ, Option, none, some, Bool, ◌&&◌, String, List, all, any, ◌==◌}
use pandahub.Exceptions.{Error.other_exception}
use pandahub.Session.{Exec, pure, raise, lift, query, ◌>>=◌}
use pandahub.Table.{select, scalar_one_or_none, update_where, unique}
use pandahub.GitAuth.{Claims}

pub record User : Type 0 where
  pub id : ℕ
  pub username : String
  pub email : String
  pub hashed_password : Option String
  pub full_name : Option String
  pub is_active : Bool
  pub is_verified : Bool
  pub two_factor_enabled : Bool
  pub two_factor_secret_encrypted : Option String

pub record RefreshToken : Type 0 where
  pub user_id : ℕ
  pub token_hash : String
  pub device_info : Option String
  pub expires_at : ℕ
  pub revoked : Bool

pub record EmailVerificationToken : Type 0 where
  pub user_id : ℕ
  pub token_hash : String
  pub expires_at : ℕ

pub record PasswordResetToken : Type 0 where
  pub user_id : ℕ
  pub token_hash : String
  pub expires_at : ℕ
  pub used : Bool

pub record UserRegister : Type 0 where
  pub username : String
  pub email : String
  pub password : String
  pub full_name : Option String

-- The tables that the service reads and writes.
pub record AccountStore : Type 0 where
  pub users : List User
  pub refresh_tokens : List RefreshToken
  pub verification_tokens : List EmailVerificationToken
  pub reset_tokens : List PasswordResetToken

-- The libraries behind core/security.py, and pyotp.
pub record Secrets : Type 0 where
  -- the bcrypt context: hash and verify
  pub hash_password : String → String
  pub verify_password : (plain_password hashed_password : String) → Bool
  -- jwt.encode and jwt.decode with the secret key: none if it raises JWTError
  pub jwt_encode : Claims → String
  pub jwt_decode : String → Option Claims
  -- str of a UUID, and uuid.UUID: none if it raises ValueError
  pub uuid_text : ℕ → String
  pub parse_uuid : String → Option ℕ
  -- hashlib.sha256(…).hexdigest()
  pub sha256 : String → String
  -- Fernet
  pub encrypt_secret : String → String
  pub decrypt_secret : String → String
  -- pyotp.TOTP(secret).verify(code, valid_window=1) at a time
  pub verify_totp : (now : ℕ) → (secret code : String) → Bool

unfoldable pub same_user : User → User → Bool
same_user a b = a.id == b.id

unfoldable pub same_username : User → User → Bool
same_username a b = str_eq a.username b.username

unfoldable pub same_email : User → User → Bool
same_email a b = str_eq a.email b.email

unfoldable pub same_refresh_hash : RefreshToken → RefreshToken → Bool
same_refresh_hash a b = str_eq a.token_hash b.token_hash

unfoldable pub same_verification_hash : EmailVerificationToken → EmailVerificationToken → Bool
same_verification_hash a b = str_eq a.token_hash b.token_hash

unfoldable pub same_reset_hash : PasswordResetToken → PasswordResetToken → Bool
same_reset_hash a b = str_eq a.token_hash b.token_hash

-- The foreign keys of the tokens.
unfoldable pub has_user : List User → ℕ → Bool
has_user users id = any (λ u. u.id == id) users

unfoldable pub users_valid : List User → Bool
users_valid users =
    unique same_user users && (unique same_username users && unique same_email users)

unfoldable pub refresh_valid : List User → List RefreshToken → Bool
refresh_valid users tokens =
    unique same_refresh_hash tokens && all (λ t. has_user users t.user_id) tokens

unfoldable pub verification_valid : List User → List EmailVerificationToken → Bool
verification_valid users tokens =
    unique same_verification_hash tokens && all (λ t. has_user users t.user_id) tokens

unfoldable pub reset_valid : List User → List PasswordResetToken → Bool
reset_valid users tokens =
    unique same_reset_hash tokens && all (λ t. has_user users t.user_id) tokens

-- The constraints that the database checks when it commits.
unfoldable pub satisfies_constraints : AccountStore → Bool
satisfies_constraints d =
    users_valid d.users
    && (refresh_valid d.users d.refresh_tokens
        && (verification_valid d.users d.verification_tokens && reset_valid d.users d.reset_tokens))

-- UPDATE users SET … WHERE id: what a flush of a changed object sends.
abbrev pub change_user : ℕ → (User → User) → AccountStore → AccountStore
change_user id change d = record d { users = update_where (λ u. u.id == id) change d.users }

unfoldable pub find_user : (id : ℕ) → Exec AccountStore (Option User)
find_user id = do
  rows ← query (λ d. select (λ u. u.id == id) d.users)
  lift (scalar_one_or_none rows)

-- result.scalar_one(): no row raises NoResultFound
unfoldable pub one_user : Option User → Exec AccountStore User
one_user none = raise other_exception
one_user (some user) = pure user
