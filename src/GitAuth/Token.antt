-- ===== src/GitAuth/Token.antt =====
-- auth.py: a good personal access token lets its owner in.
use text.Mathlib.Text.{◌==◌ as str_eq}
use text.Mathlib.TextEquality.{eq_iff}
use text.Mathlib.TextPositions.{eq_refl}
use pandahub.Prelude.{
  ℕ, ◌≡◌, refl, ap, sym, ◌∙◌, none, some, true, false, not, ◌&&◌, String, [], ◌∷◌, arith, ◌==◌,
  ==_refl,
}
use pandahub.Exceptions.{ok}
use pandahub.Session.{Session, run}
use pandahub.Table.{select, scalar_one_or_none, unique}
use pandahub.Table.Laws.{In}
use pandahub.Table.Keys.{select_single, unique-update_where}
use pandahub.GitAuth.{
  User, PersonalAccessToken, AuthStore, Codecs, same_user, same_hash, satisfies_constraints,
  find_user, if_active, is_expired, permits, set_last_used, touch, touch_and_return, use_token,
  bearer, hash_token, password, token_user, basic_unless, authenticate_git_request, strip_prefix,
}

touched_constraints :
    (now id : ℕ) (d : AuthStore) → satisfies_constraints (touch now id d) ≡ satisfies_constraints d
unfolding satisfies_constraints touch set_last_used
touched_constraints now id d =
    ap (λ b. unique same_user d.users && b)
      (unique-update_where same_hash (λ t. t.id == id) (set_last_used now) d.tokens
        (λ x y. unfold same_hash in refl) (λ x y. unfold same_hash in refl))

module _ (codecs : Codecs) (d : AuthStore) (v : satisfies_constraints d ≡ true) where
  users_unique : unique same_user d.users ≡ true
  unfolding satisfies_constraints
  users_unique = ground (arith, v)

  hashes_unique : unique same_hash d.tokens ≡ true
  unfolding satisfies_constraints
  hashes_unique = ground (arith, v)

  pub user_row : (u : User) → In u d.users → select (λ x. x.id == u.id) d.users ≡ u ∷ []
  user_row u i =
      select_single same_user (λ x. x.id == u.id) d.users u
        (λ x y h k. unfold same_user in ground arith) users_unique (==_refl u.id) i

  token_row :
      (pat : PersonalAccessToken) (hash : String)
      → In pat d.tokens
      → pat.token_hash ≡ hash
      → pat.revoked ≡ false
      → select (λ t. str_eq t.token_hash hash && not t.revoked) d.tokens ≡ pat ∷ []
  token_row pat hash i e r =
      select_single same_hash (λ t. str_eq t.token_hash hash && not t.revoked) d.tokens pat
        (λ a b h k.
          unfold same_hash in
          (eq_iff a.token_hash b.token_hash).1 (
            (eq_iff a.token_hash hash).0 (ground arith)
            ∙ sym ((eq_iff b.token_hash hash).0 (ground arith))))
        hashes_unique (rw (e, r, eq_refl hash) refl) i

module _ (codecs : Codecs) (now : ℕ) (scope header pat_raw : String) (d : AuthStore)
    (v : satisfies_constraints d ≡ true) (u : User) (i : In u d.users) (active : u.is_active ≡ true)
    (pat : PersonalAccessToken) (j : In pat d.tokens) (owner : pat.user_id ≡ u.id)
    (live : pat.revoked ≡ false) (hashed : pat.token_hash ≡ codecs.sha256 pat_raw)
    (fresh : is_expired now pat ≡ false) (scoped : permits scope pat ≡ true) where
  used :
      (s : Session AuthStore)
      → s.current ≡ d
      → use_token now scope (some pat) s
        ≡ (ok (some u), record { committed = touch now pat.id d; current = touch now pat.id d })
  unfolding use_token find_user touch_and_return if_active scalar_one_or_none
  used s same =
      rw (fresh, scoped, same, owner, user_row codecs d v u i, active)
        (rw (touched_constraints now pat.id d ∙ v) refl)

  -- Under the unique constraints, the owner of a stored personal access token is let in by it, if
  -- the header has the token in its password field, the owner is active and the token is neither
  -- revoked nor expired and its scopes permit the request; the time of use is stored.
  pub authenticate_git_request_token :
      strip_prefix "Bearer " header ≡ none
      → password codecs (strip_prefix "Basic " header) ≡ some pat_raw
      → run (authenticate_git_request codecs now (some header) scope) d
        ≡ (ok (some u), touch now pat.id d)
  unfolding authenticate_git_request bearer basic_unless token_user hash_token scalar_one_or_none
  authenticate_git_request_token no_bearer secret =
      rw (no_bearer, secret, token_row codecs d v pat (codecs.sha256 pat_raw) j hashed live)
        (rw (used (record { committed = d; current = d }) refl) refl)
