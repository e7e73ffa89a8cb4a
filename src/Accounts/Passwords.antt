-- ===== src/Accounts/Passwords.antt =====
-- auth_service.py: who passes with a password, and what a password reset does.
use text.Mathlib.Text.{◌==◌ as str_eq}
use text.Mathlib.TextEquality.{eq_iff}
use pandahub.Prelude.{
  ℕ, ◌≡◌, refl, ap, sym, ◌∙◌, inl, inr, some, true, false, ◌||◌, String, List, [], ◌∷◌, arith, any,
  all, All, ◌==◌, Bool-cases, Option-cases,
}
use pandahub.Exceptions.{Error.http, HttpStatus.malformed, ok, err, Result-cases}
use pandahub.Session.{Session, run}
use pandahub.Table.{select, scalar_one_or_none, unique, update_where}
use pandahub.Table.Laws.{In, select-In, scalar_some}
use pandahub.Table.Keys.{
  select_single, unique-update_where, any-update_where, all-update_where, all-cong,
  select-update_where,
}
use pandahub.Table.Deletes.{unique-delete_where, all-delete_where, any-delete_where_self}
use pandahub.Accounts.Store.{
  User, PasswordResetToken, RefreshToken, EmailVerificationToken, AccountStore, Secrets, same_user,
  same_username, same_email, same_refresh_hash, same_reset_hash, has_user, users_valid,
  refresh_valid, verification_valid, reset_valid, satisfies_constraints, change_user, find_user,
  one_user,
}
use pandahub.Accounts.{
  end_sessions, set_password, is_expired_at, checked_reset, set_used, password_matches,
  password_checked, authenticate_password,
}
use pandahub.Accounts.Sessions.{use_reset_token, confirm_password_reset}
use pandahub.Accounts.Rotation.{IsValid, user_row}

module _ (secrets : Secrets) (name password : String) (s : Session AccountStore) where
  -- Who passes is a stored, active user whose name or address it is and whose password matches.
  pub authenticate_password_source :
      (user : User)
      → (authenticate_password secrets name password s).0 ≡ ok user
      → In user s.current.users
        × ((str_eq user.username name || str_eq user.email name) ≡ true)
        × (password_matches secrets password user.hashed_password ≡ true)
        × (user.is_active ≡ true)
  unfolding authenticate_password password_checked
  authenticate_password_source user h =
      elim (Result-cases (
        scalar_one_or_none
          (select (λ u. str_eq u.username name || str_eq u.email name) s.current.users))) [
            | inr (raised, e) ↦ ground arith
            | inl (found, e) ↦ elim (Option-cases found) [
              | inl n ↦ ground arith
              | inr (u, k) ↦
                  let same : u ≡ user = ground arith in
                  let (t, i) =
                    select-In (λ (x : User). str_eq x.username name || str_eq x.email name)
                      s.current.users (scalar_some _ (e ∙ ap ok (k ∙ ap some same))) in
                  (i, t, ground (arith, k), ground (arith, k))
            ]
          ]

-- A change that leaves alone what the constraints read.
pub record KeepsKeys (f : User → User) : Type 0 where
  pub id : (u : User) → (f u).id ≡ u.id
  pub username : (u : User) → (f u).username ≡ u.username
  pub email : (u : User) → (f u).email ≡ u.email

module _ (f : User → User) (keeps : KeepsKeys f) (id : ℕ) (d : AccountStore) where
  open keeps use {id as same_i, username as same_n, email as same_e}

  references_kept :
      {A : Type 0} (user_id : A → ℕ) (xs : List A)
      → all (λ x. has_user (change_user id f d).users (user_id x)) xs
        ≡ all (λ x. has_user d.users (user_id x)) xs
  unfolding has_user
  references_kept user_id xs = all-cong _ _ xs (λ x.
      any-update_where (λ u. u.id == user_id x) (λ u. u.id == id) f d.users (λ u. rw same_i refl))

  pub changed-valid : satisfies_constraints (change_user id f d) ≡ satisfies_constraints d
  unfolding satisfies_constraints users_valid refresh_valid verification_valid reset_valid same_user
      same_username same_email
  changed-valid = cc (
    unique-update_where same_user (λ u. u.id == id) f d.users (λ x y. rw same_i refl)
        (λ x y. rw same_i refl),
    unique-update_where same_username (λ u. u.id == id) f d.users (λ x y. rw same_n refl)
        (λ x y. rw same_n refl),
    unique-update_where same_email (λ u. u.id == id) f d.users (λ x y. rw same_e refl)
        (λ x y. rw same_e refl),
    references_kept (λ (t : RefreshToken). t.user_id) d.refresh_tokens,
    references_kept (λ (t : EmailVerificationToken). t.user_id) d.verification_tokens,
    references_kept (λ (t : PasswordResetToken). t.user_id) d.reset_tokens,
  )

set_password-KeepsKeys : (hashed : String) → KeepsKeys (set_password hashed)
unfolding set_password
set_password-KeepsKeys hashed = record { id = λ u. refl; username = λ u. refl; email = λ u. refl }

password_set :
    (id : ℕ) (hashed : String) (users : List User)
    → All
        (λ u. (u.id == id) ≡ true → u.hashed_password ≡ some hashed)
        (update_where (λ u. u.id == id) (set_password hashed) users)
unfolding update_where set_password
password_set id hashed [] = tt
password_set id hashed (u ∷ us) = elim (Bool-cases (u.id == id)) [
  | inl e ↦ rw e (λ h. refl, password_set id hashed us)
  | inr e ↦ rw e (λ h. ground (arith, e, h), password_set id hashed us)
]

module _ (secrets : Secrets) (now : ℕ) (token new_password : String) (row : PasswordResetToken)
    (user : User) (d : AccountStore) where
  -- The rows after the reset.
  abbrev pub after_reset : AccountStore
  after_reset = end_sessions user.id (
      use_reset_token row.token_hash
        (change_user user.id (set_password (secrets.hash_password new_password)) d))

  -- A reset token that may be used at the time.
  pub record IsUsable : Type 0 where
    pub stored : In row d.reset_tokens
    pub hashed : row.token_hash ≡ secrets.sha256 token
    pub unspent : (row.used || is_expired_at now row.expires_at) ≡ false
    pub owner : row.user_id ≡ user.id
    pub known : In user d.users

  module _ (v : IsValid d) (usable : IsUsable) where
    reset_unique : unique same_reset_hash d.reset_tokens ≡ true
    unfolding satisfies_constraints reset_valid
    reset_unique = ground (arith, v)

    reset_row : select (λ t. str_eq t.token_hash row.token_hash) d.reset_tokens ≡ row ∷ []
    reset_row =
        select_single same_reset_hash (λ t. str_eq t.token_hash row.token_hash) d.reset_tokens row
          (λ a b h k.
            unfold same_reset_hash in
            (eq_iff a.token_hash b.token_hash).1 (
              (eq_iff a.token_hash row.token_hash).0 h
              ∙ sym ((eq_iff b.token_hash row.token_hash).0 k)))
          reset_unique ((eq_iff row.token_hash row.token_hash).1 refl) usable.stored

    password_valid :
        satisfies_constraints
          (change_user user.id (set_password (secrets.hash_password new_password)) d)
        ≡ true
    password_valid =
        changed-valid _ (set_password-KeepsKeys (secrets.hash_password new_password)) user.id d ∙ v

    reset-valid : IsValid after_reset
    unfolding satisfies_constraints users_valid refresh_valid verification_valid reset_valid
        end_sessions use_reset_token same_reset_hash set_used
    reset-valid = ground (
      arith,
      password_valid,
      unique-delete_where same_refresh_hash (λ t. t.user_id == user.id) d.refresh_tokens,
      all-delete_where (λ t. has_user after_reset.users t.user_id) (λ t. t.user_id == user.id)
          d.refresh_tokens,
      unique-update_where same_reset_hash (λ t. str_eq t.token_hash row.token_hash) set_used
          d.reset_tokens (λ x y. refl) (λ x y. refl),
      all-update_where (λ t. has_user after_reset.users t.user_id)
          (λ t. str_eq t.token_hash row.token_hash) set_used d.reset_tokens (λ x. refl),
    )

    -- The token of the second attempt.
    used_row :
        select (λ t. str_eq t.token_hash row.token_hash) after_reset.reset_tokens
        ≡ set_used row ∷ []
    unfolding end_sessions use_reset_token set_used update_where
    used_row =
        select-update_where (λ t. str_eq t.token_hash row.token_hash)
          (λ t. str_eq t.token_hash row.token_hash) set_used d.reset_tokens (λ x. refl)
        ∙ rw reset_row (rw ((eq_iff row.token_hash row.token_hash).1 refl) refl)

    -- On valid rows, a usable token resets the password: it is stored hashed, every session of the
    -- user ends, and the token is refused whenever it is presented again.
    pub confirm_password_reset_lem :
        (run (confirm_password_reset secrets now token new_password) d ≡ (ok tt, after_reset))
        × All
            (λ u.
              (u.id == user.id) ≡ true
              → u.hashed_password ≡ some (secrets.hash_password new_password))
            after_reset.users
        × (any (λ t. t.user_id == user.id) after_reset.refresh_tokens ≡ false)
        × ((later : ℕ) (other : String)
            → run (confirm_password_reset secrets later token other) after_reset
              ≡ (err (http malformed), after_reset))
    unfolding confirm_password_reset checked_reset set_used find_user one_user scalar_one_or_none
    confirm_password_reset_lem = (
      rw (← usable.hashed) (
          rw (reset_row, usable.unspent, usable.owner, user_row d v user usable.known, reset-valid)
            refl),
      unfold end_sessions use_reset_token in
          password_set user.id (secrets.hash_password new_password) d.users,
      unfold end_sessions in any-delete_where_self (λ t. t.user_id == user.id) _,
      λ later other. rw (← usable.hashed) (rw used_row refl),
    )
