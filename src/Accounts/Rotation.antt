-- ===== src/Accounts/Rotation.antt =====
-- auth_service.py: a refresh token is good for one rotation, and its reuse ends every session.
use mathlib.Core.List.{append-nil}
use mathlib.Core.Path.{subst}
use text.Mathlib.Text.{◌==◌ as str_eq}
use text.Mathlib.TextEquality.{eq_iff}
use pandahub.Prelude.{
  ℕ, ◌+◌, ◌≡◌, refl, sym, ◌∙◌, inl, inr, none, true, false, ◌||◌, String, [], ◌∷◌, arith, any, ◌==◌,
  ==_refl, Bool-cases,
}
use pandahub.Exceptions.{Error.http, HttpStatus.unauthenticated, ok, err}
use pandahub.Session.{run}
use pandahub.Table.{select, scalar_one_or_none, unique, update_where, delete_where}
use pandahub.Table.Laws.{In, In-any, select_none}
use pandahub.Table.Keys.{
  In-append, In-update_where, select_single, unique-snoc, unique-update_where, any-update_where,
  all-snoc, all-update_where,
}
use pandahub.Table.Deletes.{
  delete_where-append, any-delete_where, unique-delete_where, all-delete_where,
  any-delete_where_self,
}
use pandahub.Accounts.Store.{
  User, RefreshToken, AccountStore, Secrets, same_user, same_refresh_hash, has_user, users_valid,
  refresh_valid, satisfies_constraints, find_user,
}
use pandahub.Accounts.{
  add_refresh_token, end_sessions, is_expired_at, set_revoked, create_access_token,
  issue_token_pair,
}
use pandahub.Accounts.Sessions.{revoke, active_or_401, rotate_found, rotate_refresh_token}

abbrev pub IsValid : AccountStore → Type 0
IsValid d = satisfies_constraints d ≡ true

not_equal : (a b : String) → str_eq a b ≡ false → str_eq b a ≡ false
not_equal a b n = elim (Bool-cases (str_eq b a)) [
  | inr e ↦ e
  | inl e ↦ ground (arith, (eq_iff a b).1 (sym ((eq_iff b a).0 e)))
]

module _ (d : AccountStore) (v : IsValid d) where
  users_unique : unique same_user d.users ≡ true
  unfolding satisfies_constraints users_valid
  users_unique = ground (arith, v)

  hashes_unique : unique same_refresh_hash d.refresh_tokens ≡ true
  unfolding satisfies_constraints refresh_valid
  hashes_unique = ground (arith, v)

  pub user_row : (user : User) → In user d.users → select (λ u. u.id == user.id) d.users ≡ user ∷ []
  user_row user i =
      select_single same_user (λ u. u.id == user.id) d.users user
        (λ a b h k. unfold same_user in ground arith) users_unique (==_refl user.id) i

  token_row :
      (row : RefreshToken)
      → In row d.refresh_tokens
      → select (λ t. str_eq t.token_hash row.token_hash) d.refresh_tokens ≡ row ∷ []
  token_row row i =
      select_single same_refresh_hash (λ t. str_eq t.token_hash row.token_hash) d.refresh_tokens row
        (λ a b h k.
          unfold same_refresh_hash in
          (eq_iff a.token_hash b.token_hash).1 (
            (eq_iff a.token_hash row.token_hash).0 h
            ∙ sym ((eq_iff b.token_hash row.token_hash).0 k)))
        hashes_unique ((eq_iff row.token_hash row.token_hash).1 refl) i

  ended-valid : (user_id : ℕ) → IsValid (end_sessions user_id d)
  unfolding satisfies_constraints refresh_valid end_sessions
  ended-valid user_id = ground (
    arith,
    v,
    unique-delete_where same_refresh_hash (λ t. t.user_id == user_id) d.refresh_tokens,
    all-delete_where (λ t. has_user d.users t.user_id) (λ t. t.user_id == user_id) d.refresh_tokens,
  )

  -- A token that was rotated or has expired ends every session of its user.
  reuse_ends :
      (secrets : Secrets) (now refresh_ttl : ℕ) (new_raw raw : String) (row : RefreshToken)
      → In row d.refresh_tokens
      → row.token_hash ≡ secrets.sha256 raw
      → (row.revoked || is_expired_at now row.expires_at) ≡ true
      → run (rotate_refresh_token secrets now refresh_ttl new_raw raw) d
        ≡ (err (http unauthenticated), end_sessions row.user_id d)
  unfolding rotate_refresh_token rotate_found scalar_one_or_none
  reuse_ends secrets now refresh_ttl new_raw raw row i e spent =
      rw (← e) (rw (token_row row i, spent, ended-valid row.user_id) refl)

-- A refresh token that its user may rotate at the time.
pub record IsLive (secrets : Secrets) (now : ℕ) (raw : String) (row : RefreshToken) (user : User)
    (d : AccountStore) : Type 0 where
  pub stored : In row d.refresh_tokens
  pub hashed : row.token_hash ≡ secrets.sha256 raw
  pub unspent : (row.revoked || is_expired_at now row.expires_at) ≡ false
  pub owner : row.user_id ≡ user.id
  pub known : In user d.users
  pub active : user.is_active ≡ true

module _ (secrets : Secrets) (now refresh_ttl : ℕ) (new_raw raw : String) (row : RefreshToken)
    (user : User) (d : AccountStore) where
  abbrev new_token : RefreshToken
  new_token = record {
    user_id = user.id;
    token_hash = secrets.sha256 new_raw;
    device_info = row.device_info;
    expires_at = now + refresh_ttl;
    revoked = false;
  }

  -- The rows after the rotation.
  abbrev pub rotated : AccountStore
  rotated = add_refresh_token new_token (revoke row.token_hash d)

  module _ (v : IsValid d) (live : IsLive secrets now raw row user d)
      (fresh : any (λ t. str_eq t.token_hash (secrets.sha256 new_raw)) d.refresh_tokens
        ≡ false) where
    user_known : has_user d.users user.id ≡ true
    unfolding has_user
    user_known = In-any (λ u. u.id == user.id) d.users user live.known (==_refl user.id)

    rotated-valid : IsValid rotated
    unfolding satisfies_constraints refresh_valid add_refresh_token revoke same_refresh_hash
        set_revoked
    rotated-valid = ground (
      arith,
      v,
      user_known,
      fresh,
      unique-update_where same_refresh_hash (λ t. str_eq t.token_hash row.token_hash) set_revoked
          d.refresh_tokens (λ x y. refl) (λ x y. refl),
      any-update_where (λ t. str_eq t.token_hash (secrets.sha256 new_raw))
          (λ t. str_eq t.token_hash row.token_hash) set_revoked d.refresh_tokens (λ x. refl),
      unique-snoc same_refresh_hash
          (update_where (λ t. str_eq t.token_hash row.token_hash) set_revoked d.refresh_tokens)
          new_token,
      all-update_where (λ t. has_user d.users t.user_id) (λ t. str_eq t.token_hash row.token_hash)
          set_revoked d.refresh_tokens (λ x. refl),
      all-snoc (λ t. has_user d.users t.user_id)
          (update_where (λ t. str_eq t.token_hash row.token_hash) set_revoked d.refresh_tokens)
          new_token,
    )

    -- On valid rows, a live token is rotated: the answer is a new access token and the new refresh
    -- token.
    pub rotate_refresh_token_lem :
        run (rotate_refresh_token secrets now refresh_ttl new_raw raw) d
        ≡ (ok (create_access_token secrets user.id none, new_raw), rotated)
    unfolding rotate_refresh_token rotate_found scalar_one_or_none find_user active_or_401
        issue_token_pair
    rotate_refresh_token_lem = rw (← live.hashed) (
        rw
          (
            token_row d v row live.stored,
            live.unspent,
            live.owner,
            user_row d v user live.known,
            live.active,
            rotated-valid,
          )
          refl)

    spent_row : In (set_revoked row) rotated.refresh_tokens
    unfolding add_refresh_token revoke
    spent_row =
        In-append
          (update_where (λ t. str_eq t.token_hash row.token_hash) set_revoked d.refresh_tokens)
          (new_token ∷ []) (set_revoked row)
          (In-update_where (λ t. str_eq t.token_hash row.token_hash) set_revoked d.refresh_tokens
            row ((eq_iff row.token_hash row.token_hash).1 refl) live.stored)

    reused :
        (later other_ttl : ℕ) (other_raw : String)
        → run (rotate_refresh_token secrets later other_ttl other_raw raw) rotated
          ≡ (err (http unauthenticated), end_sessions user.id rotated)
    unfolding set_revoked
    reused later other_ttl other_raw =
        subst
          (λ id.
            run (rotate_refresh_token secrets later other_ttl other_raw raw) rotated
            ≡ (err (http unauthenticated), end_sessions id rotated))
          live.owner
          (reuse_ends rotated rotated-valid secrets later other_ttl other_raw raw (set_revoked row)
            spent_row live.hashed refl)

    new_token_gone :
        any
          (λ t. str_eq t.token_hash (secrets.sha256 new_raw))
          (end_sessions user.id rotated).refresh_tokens
        ≡ false
    unfolding end_sessions add_refresh_token revoke set_revoked delete_where
    new_token_gone =
        rw
          (
            delete_where-append (λ t. t.user_id == user.id)
                (update_where (λ t. str_eq t.token_hash row.token_hash) set_revoked
                  d.refresh_tokens)
                (new_token ∷ []),
            ==_refl user.id,
          )
          (rw append-nil (
            any-delete_where (λ t. str_eq t.token_hash (secrets.sha256 new_raw))
              (λ t. t.user_id == user.id)
              (update_where (λ t. str_eq t.token_hash row.token_hash) set_revoked d.refresh_tokens)
              (any-update_where (λ t. str_eq t.token_hash (secrets.sha256 new_raw))
                  (λ t. str_eq t.token_hash row.token_hash) set_revoked d.refresh_tokens (λ x. refl)
                ∙ fresh)))

    refused :
        (later other_ttl : ℕ) (other_raw : String)
        → run
            (rotate_refresh_token secrets later other_ttl other_raw new_raw)
            (end_sessions user.id rotated)
          ≡ (err (http unauthenticated), end_sessions user.id rotated)
    unfolding rotate_refresh_token rotate_found scalar_one_or_none
    refused later other_ttl other_raw =
        rw (select_none (λ t. str_eq t.token_hash (secrets.sha256 new_raw)) _ new_token_gone) refl

    -- On valid rows, once a live token has been rotated, presenting it again at any time is answered
    -- with 401 and leaves its user without any session; the token that came out of the rotation is
    -- refused from then on as well.
    pub rotate_refresh_token_reuse :
        (later other_ttl : ℕ) (other_raw : String)
        → (run (rotate_refresh_token secrets now refresh_ttl new_raw raw) d
            ≡ (ok (create_access_token secrets user.id none, new_raw), rotated))
          × (run (rotate_refresh_token secrets later other_ttl other_raw raw) rotated
              ≡ (err (http unauthenticated), end_sessions user.id rotated))
          × (any (λ t. t.user_id == user.id) (end_sessions user.id rotated).refresh_tokens ≡ false)
          × (run
                (rotate_refresh_token secrets later other_ttl other_raw new_raw)
                (end_sessions user.id rotated)
              ≡ (err (http unauthenticated), end_sessions user.id rotated))
    rotate_refresh_token_reuse later other_ttl other_raw = (
      rotate_refresh_token_lem,
      reused later other_ttl other_raw,
      unfold end_sessions in any-delete_where_self (λ t. t.user_id == user.id) _,
      refused later other_ttl other_raw,
    )
