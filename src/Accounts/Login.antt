-- ===== src/Accounts/Login.antt =====
-- auth_service.py and api/v1/auth.py: what a login needs, and the way through the second factor.
use text.Mathlib.Text.{◌==◌ as str_eq}
use pandahub.Prelude.{
  ℕ, ◌+◌, ◌≡◌, ◌⊎◌, refl, inl, inr, none, some, true, false, ◌||◌, String, arith, any, ◌==◌,
  ==_refl, Bool-cases, if◌then◌else◌,
}
use pandahub.Exceptions.{Error.http, HttpStatus.malformed, ok, err, Result-cases}
use pandahub.Session.{Session, run}
use pandahub.Table.{scalar_one_or_none}
use pandahub.Table.Laws.{In, In-any}
use pandahub.Table.Keys.{unique-snoc, all-snoc}
use pandahub.GitAuth.{Claims, is_access, if_access}
use pandahub.Dependencies.{is_challenge}
use pandahub.Accounts.Store.{
  User, RefreshToken, AccountStore, Secrets, same_refresh_hash, has_user, refresh_valid,
  satisfies_constraints, find_user,
}
use pandahub.Accounts.{
  add_refresh_token, password_matches, authenticate_password, create_access_token,
  issue_two_factor_challenge, id_or_error, subject_or_error, challenge_user,
  verify_two_factor_challenge, issue_token_pair,
}
use pandahub.Accounts.Sessions.{
  LoginAnswer, token_pair, two_factor_challenge, verify_totp_for_login, answer_login, login,
  checked_code, login_two_factor,
}
use pandahub.Accounts.Rotation.{IsValid, user_row}
use pandahub.Accounts.Passwords.{authenticate_password_source}

-- The answer that the user gets: tokens only without a second factor.
unfoldable pub IsAnswerFor : Secrets → (new_raw : String) → User → LoginAnswer → Type 0
IsAnswerFor secrets new_raw user answer =
    ((user.two_factor_enabled ≡ true)
      × (answer ≡ two_factor_challenge (issue_two_factor_challenge secrets user)))
    ⊎ ((user.two_factor_enabled ≡ false)
        × (answer ≡ token_pair (create_access_token secrets user.id none) new_raw))

module _ (secrets : Secrets) (now refresh_ttl : ℕ) (new_raw name password : String)
    (s : Session AccountStore) where
  answer_login_source :
      (user : User) (answer : LoginAnswer) (t : Session AccountStore)
      → (answer_login secrets now refresh_ttl new_raw user t).0 ≡ ok answer
      → IsAnswerFor secrets new_raw user answer
  unfolding answer_login IsAnswerFor issue_token_pair
  answer_login_source user answer t h = ground arith

  -- A login that is answered is one of a stored, active user whose name or address and password were
  -- given; a user with a second factor gets only the challenge, and one without gets the tokens.
  pub login_source :
      (answer : LoginAnswer)
      → (login secrets now refresh_ttl new_raw name password s).0 ≡ ok answer
      → (user : User) × In user s.current.users
        × ((str_eq user.username name || str_eq user.email name) ≡ true)
        × (password_matches secrets password user.hashed_password ≡ true)
        × (user.is_active ≡ true)
        × IsAnswerFor secrets new_raw user answer
  unfolding login
  login_source answer h = elim (Result-cases (authenticate_password secrets name password s).0) [
    | inr (raised, e) ↦ ground (arith, e, h)
    | inl (user, e) ↦
        let (i, n, p, a) = authenticate_password_source secrets name password s user e in
        (
          user,
          i,
          n,
          p,
          a,
          answer_login_source user answer (authenticate_password secrets name password s).1
              (ground (arith, e, h)),
        )
  ]

-- The database takes a new refresh token of a user whose hash no row has.
module _ (token : RefreshToken) (d : AccountStore) (v : IsValid d)
    (owned : has_user d.users token.user_id ≡ true)
    (fresh : any (λ t. str_eq t.token_hash token.token_hash) d.refresh_tokens ≡ false) where
  pub issued-valid : IsValid (add_refresh_token token d)
  unfolding satisfies_constraints refresh_valid add_refresh_token same_refresh_hash
  issued-valid = ground (
    arith,
    v,
    owned,
    fresh,
    unique-snoc same_refresh_hash d.refresh_tokens token,
    all-snoc (λ t. has_user d.users t.user_id) d.refresh_tokens token,
  )

-- What create_access_token puts into a challenge.
abbrev pub challenge_claims : Secrets → (user_id : ℕ) → Claims
challenge_claims secrets user_id = record {
  sub = some (secrets.uuid_text user_id);
  type = some "access";
  purpose = some "2fa_challenge";
}

-- The token library and the UUID give back what they encoded of the user.
pub record IsCodec (secrets : Secrets) (user_id : ℕ) : Type 0 where
  pub claims_back :
      secrets.jwt_decode (secrets.jwt_encode (challenge_claims secrets user_id))
      ≡ some (challenge_claims secrets user_id)
  pub uuid_back : secrets.parse_uuid (secrets.uuid_text user_id) ≡ some user_id

module _ (secrets : Secrets) (now refresh_ttl : ℕ) (new_raw : String) (user : User)
    (d : AccountStore) (codec : IsCodec secrets user.id) where
  challenge_back :
      (s : Session AccountStore)
      → verify_two_factor_challenge secrets (issue_two_factor_challenge secrets user) s
        ≡ (ok user.id, s)
  unfolding verify_two_factor_challenge challenge_user subject_or_error id_or_error
      issue_two_factor_challenge create_access_token is_challenge if_access is_access
  challenge_back s = rw codec.claims_back (rw codec.uuid_back refl)

  abbrev pub login_token : RefreshToken
  login_token = record {
    user_id = user.id;
    token_hash = secrets.sha256 new_raw;
    device_info = none;
    expires_at = now + refresh_ttl;
    revoked = false;
  }

  -- On valid rows, the challenge that a login issued to a stored user is exchanged for tokens if and
  -- only if the code is the one of the stored secret; a wrong code is answered with 400 and changes
  -- no row. The codecs give back what they encoded of the user and the new token's hash
  -- is fresh.
  pub login_two_factor-issue_two_factor_challenge :
      IsValid d
      → In user d.users
      → any (λ t. str_eq t.token_hash (secrets.sha256 new_raw)) d.refresh_tokens ≡ false
      → (totp_code : String)
      → run
          (login_two_factor secrets now refresh_ttl new_raw
            (issue_two_factor_challenge secrets user)
            totp_code)
          d
        ≡ (if verify_totp_for_login secrets now user totp_code
            then (
              ok (token_pair (create_access_token secrets user.id none) new_raw),
              add_refresh_token login_token d,
            )
            else (err (http malformed), d))
  unfolding login_two_factor find_user checked_code scalar_one_or_none issue_token_pair
  login_two_factor-issue_two_factor_challenge v known fresh totp_code =
      let owned : has_user d.users user.id ≡ true =
        unfold has_user in In-any (λ u. u.id == user.id) d.users user known (==_refl user.id) in
      elim (Bool-cases (verify_totp_for_login secrets now user totp_code)) [
        | inl e ↦
            rw
              (
                run,
                challenge_back,
                user_row d v user known,
                e,
                issued-valid login_token d v owned fresh,
              )
              refl
        | inr e ↦ rw (run, challenge_back, user_row d v user known, e) refl
      ]
