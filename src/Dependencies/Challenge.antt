-- ===== src/Dependencies/Challenge.antt =====
-- dependencies.py and git_engine/auth.py: the token that stands for the first factor alone.
use pandahub.Prelude.{ℕ, ◌≡◌, refl, some, true, String}
use pandahub.Exceptions.{Error.http, HttpStatus.unauthenticated, ok, err}
use pandahub.Session.{Session, run}
use pandahub.Table.{scalar_one_or_none}
use pandahub.Table.Laws.{In}
use pandahub.GitAuth
use pandahub.GitAuth.{
  Claims, Codecs, AuthStore, is_access, if_access, subject, decode_access_token, strip_prefix,
  bearer_id, user_of_id, bearer, find_user, if_active, basic_unless, authenticate_git_request,
}
use pandahub.GitAuth.Token.{user_row}
use pandahub.Repos.Store.{RepoStore}
use pandahub.Dependencies.{is_challenge, user_of_claims, get_current_user}

-- A challenge of the second factor is an access token with a purpose. The routes refuse it, in
-- whatever state the database is; a git request takes it for a full login of an active user whom
-- it names.
pub authenticate_git_request-challenge :
    (codecs : Codecs) (text header scope : String) (claims : Claims) (now : ℕ)
    (s : Session RepoStore) (d : AuthStore) (user : GitAuth.User) (sub : String)
    → codecs.jwt_decode text ≡ some claims
    → is_access claims.type ≡ true
    → is_challenge claims.purpose ≡ true
    → claims.sub ≡ some sub
    → codecs.parse_uuid sub ≡ some user.id
    → strip_prefix "Bearer " header ≡ some text
    → GitAuth.satisfies_constraints d ≡ true
    → In user d.users
    → user.is_active ≡ true
    → ((get_current_user codecs (some text) s).0 ≡ err (http unauthenticated))
      × (run (authenticate_git_request codecs now (some header) scope) d ≡ (ok (some user), d))
unfolding get_current_user user_of_claims decode_access_token if_access authenticate_git_request
    bearer user_of_id bearer_id subject find_user if_active basic_unless scalar_one_or_none
authenticate_git_request-challenge codecs text header scope claims now s d user sub decoded access
      challenge named id stripped v i active =
    (
      rw (decoded, access, challenge) refl,
      rw (stripped, decoded, access, named, id, user_row codecs d v user i, active) refl,
    )
