-- ===== src/GitAuth/Tokens/Laws.antt =====
-- auth_service.py and auth.py: a personal access token opens git until it is revoked.
use text.Mathlib.Text.{◌==◌ as str_eq}
use pandahub.Prelude.{
  ℕ, ◌≡◌, refl, Option, none, some, true, false, not, ◌&&◌, String, List, [], ◌∷◌, ◌++◌, arith, any,
  ◌==◌, ==_refl,
}
use pandahub.Exceptions.{ok}
use pandahub.Session.{run}
use pandahub.Table.{select, scalar_one_or_none, update_where}
use pandahub.Table.Laws.{In, select_none}
use pandahub.Table.Keys.{In-snoc, select-append, unique-snoc, unique-update_where}
use pandahub.GitAuth.{
  User, PersonalAccessToken, AuthStore, Codecs, same_hash, satisfies_constraints, is_expired,
  permits, touch, use_token, bearer, hash_token, password, token_user, basic_unless,
  authenticate_git_request, strip_prefix,
}
use pandahub.GitAuth.Token.{authenticate_git_request_token}
use pandahub.GitAuth.Tokens.{
  add_token, is_token_of, set_revoked, revoke, token_or_404, revoke_personal_access_token,
  new_token, create_personal_access_token,
}

-- No row of the hash is left unrevoked.
revoked_gone :
    (pat : PersonalAccessToken) (xs : List PersonalAccessToken)
    → any (λ t. str_eq t.token_hash pat.token_hash) xs ≡ false
    → any
        (λ t. str_eq t.token_hash pat.token_hash && not t.revoked)
        (update_where (λ t. t.id == pat.id) set_revoked (xs ++ pat ∷ []))
      ≡ false
unfolding update_where set_revoked
revoked_gone pat [] h = ground (arith, ==_refl pat.id)
revoked_gone pat (x ∷ xs) h = ground (arith, h, revoked_gone pat xs)

no_token_of :
    (user_id pat_id : ℕ) (xs : List PersonalAccessToken)
    → any (λ t. t.id == pat_id) xs ≡ false
    → any (is_token_of user_id pat_id) xs ≡ false
unfolding is_token_of
no_token_of user_id pat_id [] h = refl
no_token_of user_id pat_id (x ∷ xs) h = ground (arith, h, no_token_of user_id pat_id xs)

module _ (codecs : Codecs) (now pat_id : ℕ) (raw_token : String) (user : User)
    (scopes : List String) (expires_in_days : Option ℕ) (d : AuthStore)
    (v : satisfies_constraints d ≡ true) where
  abbrev pat : PersonalAccessToken
  pat = new_token codecs now pat_id raw_token user scopes expires_in_days

  -- The rows with the new token.
  abbrev pub created : AuthStore
  created = add_token pat d

  -- A token whose id and hash no row has.
  pub record IsFresh : Type 0 where
    pub id : any (λ t. t.id == pat_id) d.tokens ≡ false
    pub hash : any (λ t. str_eq t.token_hash (codecs.sha256 raw_token)) d.tokens ≡ false

  module _ (fresh : IsFresh) where
    created-valid : satisfies_constraints created ≡ true
    unfolding satisfies_constraints add_token same_hash new_token hash_token
    created-valid = ground (arith, v, fresh.hash, unique-snoc same_hash d.tokens pat)

    new_row : select (is_token_of user.id pat_id) created.tokens ≡ pat ∷ []
    unfolding add_token new_token is_token_of select
    new_row =
        rw
          (
            select-append (is_token_of user.id pat_id) d.tokens (pat ∷ []),
            select_none (is_token_of user.id pat_id) d.tokens
                (no_token_of user.id pat_id d.tokens fresh.id),
          )
          (rw (==_refl pat_id, ==_refl user.id) refl)

    revoked-valid : satisfies_constraints (revoke pat_id created) ≡ true
    unfolding satisfies_constraints revoke set_revoked same_hash
    revoked-valid = ground (
      arith,
      created-valid,
      unique-update_where same_hash (λ t. t.id == pat_id) set_revoked created.tokens (λ x y. refl)
          (λ x y. refl),
    )

    create_ok :
        run (create_personal_access_token codecs now pat_id raw_token user scopes expires_in_days) d
        ≡ (ok (pat, raw_token), created)
    unfolding create_personal_access_token
    create_ok = rw created-valid refl

    revoke_ok :
        run (revoke_personal_access_token user pat_id) created ≡ (ok tt, revoke pat_id created)
    unfolding revoke_personal_access_token token_or_404 scalar_one_or_none new_token
    revoke_ok = rw (new_row, revoked-valid) refl

    module _ (scope header : String) (no_bearer : strip_prefix "Bearer " header ≡ none)
        (secret : password codecs (strip_prefix "Basic " header) ≡ some raw_token) where
      refused :
          (later : ℕ)
          → run (authenticate_git_request codecs later (some header) scope) (revoke pat_id created)
            ≡ (ok none, revoke pat_id created)
      unfolding authenticate_git_request bearer basic_unless token_user hash_token use_token
          scalar_one_or_none revoke add_token new_token
      refused later =
          rw
            (
              no_bearer,
              secret,
              select_none (λ t. str_eq t.token_hash (codecs.sha256 raw_token) && not t.revoked)
                  (update_where (λ t. t.id == pat_id) set_revoked (d.tokens ++ pat ∷ []))
                  (revoked_gone pat d.tokens fresh.hash),
            )
            refl

      -- On valid rows, a stored, active user who makes a personal access token of a fresh id and
      -- hash is let in by every request that has the token as its password and whose scope the token
      -- permits, until the token expires; once the user revokes it, the token lets nobody in.
      pub authenticate_git_request-revoke_personal_access_token :
          In user d.users
          → user.is_active ≡ true
          → permits scope pat ≡ true
          → (run
                (create_personal_access_token codecs now pat_id raw_token user scopes
                  expires_in_days)
                d
              ≡ (ok (pat, raw_token), created))
            × ((later : ℕ)
                → is_expired later pat ≡ false
                → run (authenticate_git_request codecs later (some header) scope) created
                  ≡ (ok (some user), touch later pat_id created))
            × (run (revoke_personal_access_token user pat_id) created
                ≡ (ok tt, revoke pat_id created))
            × ((later : ℕ)
                → run
                    (authenticate_git_request codecs later (some header) scope)
                    (revoke pat_id created)
                  ≡ (ok none, revoke pat_id created))
      unfolding add_token new_token hash_token
      authenticate_git_request-revoke_personal_access_token known active scoped = (
        create_ok,
        λ later in_time.
            authenticate_git_request_token codecs later scope header raw_token created created-valid
              user known active pat (In-snoc d.tokens pat) refl refl refl in_time scoped no_bearer
              secret,
        revoke_ok,
        refused,
      )
