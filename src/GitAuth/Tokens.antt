-- ===== src/GitAuth/Tokens.antt =====
-- backend/app/services/auth_service.py: personal access tokens, which git requests present. The name
-- that a token is shown with and the time it was made are left out.
pub mod Laws
use text.Mathlib.Text.{◌==◌ as str_eq}
use pandahub.Prelude.{
  ℕ, ◌+◌, ◌*◌, Option, none, some, Bool, true, false, ◌&&◌, String, List, [], ◌∷◌, ◌++◌, ◌==◌,
}
use pandahub.Exceptions.{Error.http, HttpStatus.missing}
use pandahub.Session.{Exec, pure, raise, lift, query, modify, commit, ◌>>=◌, ◌>>◌}
use pandahub.Table.{select, scalar_one_or_none, update_where}
use pandahub.GitAuth.{
  User, PersonalAccessToken, AuthStore, Codecs, satisfies_constraints, hash_token,
}

-- A token without a number of days does not expire.
unfoldable pub expiry : (now : ℕ) → (expires_in_days : Option ℕ) → Option ℕ
expiry now none = none
expiry now (some days) = some (now + days * 86400)

unfoldable pub add_token : PersonalAccessToken → AuthStore → AuthStore
add_token pat d = record d { tokens = d.tokens ++ pat ∷ [] }

unfoldable pub is_token_of : (user_id pat_id : ℕ) → PersonalAccessToken → Bool
is_token_of user_id pat_id t = t.id == pat_id && t.user_id == user_id

unfoldable pub set_revoked : PersonalAccessToken → PersonalAccessToken
set_revoked pat = record pat { revoked = true }

unfoldable pub revoke : (pat_id : ℕ) → AuthStore → AuthStore
revoke pat_id d = record d { tokens = update_where (λ t. t.id == pat_id) set_revoked d.tokens }

unfoldable pub token_or_404 : Option PersonalAccessToken → Exec AuthStore PersonalAccessToken
token_or_404 none = raise (http missing)
token_or_404 (some pat) = pure pat

unfoldable pub revoke_personal_access_token : User → (pat_id : ℕ) → Exec AuthStore (Unit {0})
revoke_personal_access_token user pat_id = do
  rows ← query (λ d. select (is_token_of user.id pat_id) d.tokens)
  found ← lift (scalar_one_or_none rows)
  pat ← token_or_404 found
  modify (revoke pat.id)
  commit satisfies_constraints

module _ (codecs : Codecs) (now pat_id : ℕ) (raw_token : String) where
  unfoldable pub new_token :
      User → (scopes : List String) → (expires_in_days : Option ℕ) → PersonalAccessToken
  new_token user scopes expires_in_days = record {
    id = pat_id;
    user_id = user.id;
    token_hash = hash_token codecs raw_token;
    scopes = scopes;
    last_used_at = none;
    expires_at = expiry now expires_in_days;
    revoked = false;
  }

  unfoldable pub create_personal_access_token :
      User
      → (scopes : List String) → (expires_in_days : Option ℕ)
      → Exec AuthStore (PersonalAccessToken × String)
  create_personal_access_token user scopes expires_in_days = do
    modify (add_token (new_token user scopes expires_in_days))
    commit satisfies_constraints
    pure (new_token user scopes expires_in_days, raw_token)
