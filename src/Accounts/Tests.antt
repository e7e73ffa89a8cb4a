-- ===== src/Accounts/Tests.antt =====
-- Two users, one with a second factor, and the theorems on them.
use text.Mathlib.Text.{◌==◌ as str_eq}
use pandahub.Prelude.{
  ℕ, ◌≡◌, refl, inl, inr, none, some, true, false, ◌&&◌, ◌||◌, String, [], ◌∷◌, any, All, ◌==◌,
  if◌then◌else◌,
}
use pandahub.Exceptions.{Error.http, HttpStatus.unauthenticated, HttpStatus.malformed, ok, err}
use pandahub.Session.{Session, run}
use pandahub.Table.{scalar_one_or_none, select, unique}
use pandahub.Table.Laws.{In}
use pandahub.Accounts.Store.{
  User, RefreshToken, PasswordResetToken, AccountStore, Secrets, same_user, same_username,
  same_email, same_refresh_hash, same_verification_hash, same_reset_hash, has_user, users_valid,
  refresh_valid, verification_valid, reset_valid, satisfies_constraints,
}
use pandahub.Accounts.{
  add_refresh_token, end_sessions, is_expired_at, password_matches, password_checked,
  authenticate_password, create_access_token, issue_two_factor_challenge,
}
use pandahub.Accounts.Sessions.{
  token_pair, two_factor_challenge, code_matches, verify_totp_for_login, answer_login, login,
  login_two_factor, rotate_refresh_token, confirm_password_reset,
}
use pandahub.Accounts.Rotation.{IsValid, IsLive, rotated, rotate_refresh_token_reuse}
use pandahub.Accounts.Passwords.{IsUsable, after_reset, confirm_password_reset_lem}
use pandahub.Accounts.Login.{
  IsAnswerFor, IsCodec, login_token, login_source, login_two_factor-issue_two_factor_challenge,
}

abbrev ann : User
ann = record {
  id = 20;
  username = "ann";
  email = "ann@example.org";
  hashed_password = some "#password";
  full_name = none;
  is_active = true;
  is_verified = true;
  two_factor_enabled = false;
  two_factor_secret_encrypted = none;
}

abbrev bob : User
bob = record {
  id = 21;
  username = "bob";
  email = "bob@example.org";
  hashed_password = some "#password";
  full_name = some "Bob";
  is_active = true;
  is_verified = true;
  two_factor_enabled = true;
  two_factor_secret_encrypted = some "#seed";
}

abbrev laptop : RefreshToken
laptop = record {
  user_id = 20;
  token_hash = "#first";
  device_info = some "laptop";
  expires_at = 100;
  revoked = false;
}

abbrev phone : RefreshToken
phone = record {
  user_id = 20;
  token_hash = "#phone";
  device_info = none;
  expires_at = 100;
  revoked = false;
}

abbrev forgotten : PasswordResetToken
forgotten = record { user_id = 20; token_hash = "#reset"; expires_at = 100; used = false }

abbrev store : AccountStore
store = record {
  users = ann ∷ bob ∷ [];
  refresh_tokens = laptop ∷ phone ∷ [];
  verification_tokens = [];
  reset_tokens = forgotten ∷ [];
}

abbrev hash_text : String → String
hash_text s =
    if str_eq s "first"
    then "#first"
    else if str_eq s "second"
    then "#second"
    else if str_eq s "phone"
    then "#phone"
    else if str_eq s "reset"
    then "#reset"
    else "#password"

abbrev secrets : Secrets
secrets = record {
  hash_password = hash_text;
  verify_password = λ plain hashed. str_eq (hash_text plain) hashed;
  jwt_encode = λ claims. "token";
  jwt_decode = λ t.
      if str_eq t "token"
      then some (record { sub = some "bob"; type = some "access"; purpose = some "2fa_challenge" })
      else none;
  uuid_text = λ id. if id == 20 then "ann" else "bob";
  parse_uuid = λ s. if str_eq s "ann" then some 20 else if str_eq s "bob" then some 21 else none;
  sha256 = hash_text;
  encrypt_secret = λ s. "#seed";
  decrypt_secret = λ s. "seed";
  verify_totp = λ now secret code. str_eq secret "seed" && str_eq code "123456";
}

store-IsValid : IsValid store
unfolding satisfies_constraints users_valid refresh_valid verification_valid reset_valid same_user
    same_username same_email same_refresh_hash same_verification_hash same_reset_hash has_user
    unique
store-IsValid = refl

live : IsLive secrets 10 "first" laptop ann store
unfolding is_expired_at
live = record {
  stored = inl refl;
  hashed = refl;
  unspent = refl;
  owner = refl;
  known = inl refl;
  active = refl;
}

rotate_refresh_token_reuse_example :
    (run (rotate_refresh_token secrets 10 50 "second" "first") store ≡ (
      ok (create_access_token secrets 20 none, "second"),
      rotated secrets 10 50 "second" "first" laptop ann store,
    ))
    × (run
          (rotate_refresh_token secrets 20 50 "third" "first")
          (rotated secrets 10 50 "second" "first" laptop ann store)
        ≡ (
          err (http unauthenticated),
          end_sessions 20 (rotated secrets 10 50 "second" "first" laptop ann store),
        ))
    × (any
          (λ t. t.user_id == 20)
          (end_sessions 20 (rotated secrets 10 50 "second" "first" laptop ann store)).refresh_tokens
        ≡ false)
    × (run
          (rotate_refresh_token secrets 20 50 "third" "second")
          (end_sessions 20 (rotated secrets 10 50 "second" "first" laptop ann store))
        ≡ (
          err (http unauthenticated),
          end_sessions 20 (rotated secrets 10 50 "second" "first" laptop ann store),
        ))
rotate_refresh_token_reuse_example =
    rotate_refresh_token_reuse secrets 10 50 "second" "first" laptop ann store store-IsValid live
      refl 20 50 "third"

usable : IsUsable secrets 10 "reset" "changed" forgotten ann store
unfolding is_expired_at
usable = record { stored = inl refl; hashed = refl; unspent = refl; owner = refl; known = inl refl }

confirm_password_reset_lem_example :
    (run (confirm_password_reset secrets 10 "reset" "changed") store
      ≡ (ok tt, after_reset secrets 10 "reset" "changed" forgotten ann store))
    × All
        (λ u. (u.id == 20) ≡ true → u.hashed_password ≡ some (secrets.hash_password "changed"))
        (after_reset secrets 10 "reset" "changed" forgotten ann store).users
    × (any
          (λ t. t.user_id == 20)
          (after_reset secrets 10 "reset" "changed" forgotten ann store).refresh_tokens
        ≡ false)
    × ((later : ℕ) (other : String)
        → run
            (confirm_password_reset secrets later "reset" other)
            (after_reset secrets 10 "reset" "changed" forgotten ann store)
          ≡ (err (http malformed), after_reset secrets 10 "reset" "changed" forgotten ann store))
confirm_password_reset_lem_example =
    confirm_password_reset_lem secrets 10 "reset" "changed" forgotten ann store store-IsValid usable

abbrev start : Session AccountStore
start = record { committed = store; current = store }

-- Bob's login stops at the challenge.
bob_challenged :
    (login secrets 10 50 "second" "bob" "password" start).0 ≡ ok (two_factor_challenge "token")
unfolding login answer_login authenticate_password password_checked password_matches select
    scalar_one_or_none issue_two_factor_challenge create_access_token
bob_challenged = refl

login_source_example :
    (user : User) × In user store.users
    × ((str_eq user.username "bob" || str_eq user.email "bob") ≡ true)
    × (password_matches secrets "password" user.hashed_password ≡ true)
    × (user.is_active ≡ true)
    × IsAnswerFor secrets "second" user (two_factor_challenge "token")
login_source_example =
    login_source secrets 10 50 "second" "bob" "password" start (two_factor_challenge "token")
      bob_challenged

codec : IsCodec secrets 21
codec = record { claims_back = refl; uuid_back = refl }

login_two_factor-issue_two_factor_challenge_example :
    run
      (login_two_factor secrets 10 50 "second" (issue_two_factor_challenge secrets bob) "123456")
      store
    ≡ (if verify_totp_for_login secrets 10 bob "123456"
        then (
          ok (token_pair (create_access_token secrets 21 none) "second"),
          add_refresh_token (login_token secrets 10 50 "second" bob store codec) store,
        )
        else (err (http malformed), store))
login_two_factor-issue_two_factor_challenge_example =
    login_two_factor-issue_two_factor_challenge secrets 10 50 "second" bob store codec store-IsValid
      (inr (inl refl)) refl "123456"

-- The code decides.
codes :
    (verify_totp_for_login secrets 10 bob "123456" ≡ true)
    × (verify_totp_for_login secrets 10 bob "000000" ≡ false)
unfolding verify_totp_for_login code_matches
codes = (refl, refl)
