-- ===== src/GitAuth/Tests.antt =====
-- Requests with each kind of credential.
use pandahub.GitAuth.Tokens.Laws.{
  IsFresh, created, authenticate_git_request-revoke_personal_access_token,
}
use pandahub.GitAuth.Tokens.{
  revoke, revoke_personal_access_token, new_token, create_personal_access_token,
}
use text.Mathlib.Text.{◌==◌ as str_eq}
use pandahub.Prelude.{ℕ, ◌≡◌, refl, ◌⊎◌, inl, none, some, true, false, [], ◌∷◌, if◌then◌else◌}
use pandahub.Exceptions.{ok}
use pandahub.Session.{Session, run}
use pandahub.Table.{select, scalar_one_or_none, unique, update_where}
use pandahub.Table.Laws.{In}
use pandahub.GitAuth.{
  subject, if_access, User, PersonalAccessToken, AuthStore, Codecs, same_user, same_hash,
  satisfies_constraints, find_user, if_active, is_expired, has_scope, permits, set_last_used, touch,
  touch_and_return, use_token, is_access, decode_access_token, bearer_id, user_of_id, bearer,
  hash_token, password, after_colon, token_user, basic_unless, authenticate_git_request,
  strip_prefix,
}
use pandahub.GitAuth.Laws.{IsBearer, IsGranted, authenticate_git_request_source}

abbrev ann : User
ann = record { id = 20; is_active = true }

abbrev laptop : PersonalAccessToken
laptop = record {
  id = 1;
  user_id = 20;
  token_hash = "#secret";
  scopes = "repo:read" ∷ [];
  last_used_at = none;
  expires_at = some 100;
  revoked = false;
}

abbrev store : AuthStore
store = record { users = ann ∷ []; tokens = laptop ∷ [] }

abbrev codecs : Codecs
codecs = record {
  jwt_decode = λ t.
      if str_eq t "jwt"
      then some (record { sub = some "ann"; type = some "access"; purpose = none })
      else none;
  parse_uuid = λ s. if str_eq s "ann" then some 20 else none;
  b64decode = λ s. if str_eq s "eDpzZWNyZXQ=" then some "x:secret" else none;
  sha256 = λ s. if str_eq s "secret" then "#secret" else "#other";
}

abbrev start : Session AuthStore
start = record { committed = store; current = store }

program : Unit {0}
unfolding select scalar_one_or_none unique update_where same_user same_hash satisfies_constraints
    subject if_access find_user if_active is_expired has_scope permits set_last_used touch
    touch_and_return use_token is_access decode_access_token bearer_id user_of_id bearer hash_token
    password after_colon token_user basic_unless authenticate_git_request strip_prefix
program = tt

store_valid : satisfies_constraints store ≡ true
unfolding program
store_valid = refl

by_token :
    (authenticate_git_request codecs 50 (some "Basic eDpzZWNyZXQ=") "repo:read" start).0
    ≡ ok (some ann)
unfolding program
by_token = refl

by_jwt :
    run (authenticate_git_request codecs 50 (some "Bearer jwt") "repo:write") store
    ≡ (ok (some ann), store)
unfolding program
by_jwt = refl

too_late :
    run (authenticate_git_request codecs 101 (some "Basic eDpzZWNyZXQ=") "repo:read") store
    ≡ (ok none, store)
unfolding program
too_late = refl

no_scope :
    run (authenticate_git_request codecs 50 (some "Basic eDpzZWNyZXQ=") "repo:write") store
    ≡ (ok none, store)
unfolding program
no_scope = refl

no_bearer : strip_prefix "Bearer " "Basic eDpzZWNyZXQ=" ≡ none
unfolding program
no_bearer = refl

secret : password codecs (strip_prefix "Basic " "Basic eDpzZWNyZXQ=") ≡ some "secret"
unfolding program
secret = refl

in_time : is_expired 50 laptop ≡ false
unfolding program
in_time = refl

scoped : permits "repo:read" laptop ≡ true
unfolding program
scoped = refl

authenticate_git_request_source_example :
    In ann store.users
    × (ann.is_active ≡ true)
    × (IsBearer codecs start ann (strip_prefix "Bearer " "Basic eDpzZWNyZXQ=")
        ⊎ IsGranted codecs start ann 50 "repo:read"
            (password codecs (strip_prefix "Basic " "Basic eDpzZWNyZXQ=")))
authenticate_git_request_source_example =
    authenticate_git_request_source codecs start ann 50 "repo:read" "Basic eDpzZWNyZXQ=" by_token

abbrev desktop : PersonalAccessToken
desktop = record {
  id = 1;
  user_id = 20;
  token_hash = "#other";
  scopes = "repo" ∷ [];
  last_used_at = none;
  expires_at = none;
  revoked = false;
}

abbrev with_desktop : AuthStore
with_desktop = record { users = ann ∷ []; tokens = desktop ∷ [] }

with_desktop_valid : satisfies_constraints with_desktop ≡ true
unfolding program
with_desktop_valid = refl

fresh :
    IsFresh codecs 10 2 "secret" ann ("repo:read" ∷ []) (some 30) with_desktop with_desktop_valid
fresh = record { id = refl; hash = refl }

permitted :
    permits "repo:read" (new_token codecs 10 2 "secret" ann ("repo:read" ∷ []) (some 30)) ≡ true
unfolding program new_token
permitted = refl

abbrev made : AuthStore
made = created codecs 10 2 "secret" ann ("repo:read" ∷ []) (some 30) with_desktop with_desktop_valid

authenticate_git_request-revoke_personal_access_token_example :
    (run
        (create_personal_access_token codecs 10 2 "secret" ann ("repo:read" ∷ []) (some 30))
        with_desktop
      ≡ (ok (new_token codecs 10 2 "secret" ann ("repo:read" ∷ []) (some 30), "secret"), made))
    × ((later : ℕ)
        → is_expired later (new_token codecs 10 2 "secret" ann ("repo:read" ∷ []) (some 30)) ≡ false
        → run (authenticate_git_request codecs later (some "Basic eDpzZWNyZXQ=") "repo:read") made
          ≡ (ok (some ann), touch later 2 made))
    × (run (revoke_personal_access_token ann 2) made ≡ (ok tt, revoke 2 made))
    × ((later : ℕ)
        → run
            (authenticate_git_request codecs later (some "Basic eDpzZWNyZXQ=") "repo:read")
            (revoke 2 made)
          ≡ (ok none, revoke 2 made))
authenticate_git_request-revoke_personal_access_token_example =
    authenticate_git_request-revoke_personal_access_token codecs 10 2 "secret" ann
      ("repo:read" ∷ []) (some 30) with_desktop with_desktop_valid fresh "repo:read"
      "Basic eDpzZWNyZXQ=" no_bearer secret (inl refl) refl permitted
