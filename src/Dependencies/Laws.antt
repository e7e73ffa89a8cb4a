-- ===== src/Dependencies/Laws.antt =====
-- dependencies.py: who passes as the current user, and which repository a route gets.
use mathlib.Core.Path.{subst}
use pandahub.Prelude.{
  List, ℕ, ◌≤◌, ◌≡◌, refl, ap, sym, ◌∙◌, inl, inr, Option, none, some, Bool, true, false, String,
  arith, ◌==◌, Bool-cases, Option-cases,
}
use pandahub.Exceptions.{ok, Result-cases}
use pandahub.Session.{Session, run, ◌>>=◌}
use pandahub.Table.{select, scalar_one_or_none}
use pandahub.Table.Laws.{In, select-In, scalar_some}
use pandahub.Enums.{PermissionLevel}
use pandahub.Permissions.{level_rank, require_repo_permission, assert_permission}
use pandahub.Permissions.Granted.{IsGranted}
use pandahub.Permissions.Access.{assert_permission-IsGranted}
use pandahub.GitAuth.{Claims, Codecs, is_access, if_access, decode_access_token}
use pandahub.Repos.Store.{User, Repository, RepoStore, for_resolver}
use pandahub.Repos.{
  is_named_of_user, is_named_of_organization, user_named, organization_named, repository_of_user,
  repository_of_organization, in_organization, of_user_or_organization, get_repo_by_owner_and_name,
}
use pandahub.Dependencies.{
  is_challenge, user_or_401, user_by_id, subject_id, user_of_claims, get_current_user,
  get_current_active_user, none_if_http, get_optional_current_user, organization_unless,
  repository_of_owner, repository_or_404, get_repository, user_id_of, check_repo_permission,
}

-- The two lookups of a repository by its path agree: the route's raises NotFoundError where the
-- service's returns nothing, and every other outcome is the same.
pub get_repository_lem :
    (owner repo : String) (d : RepoStore)
    → run (get_repository owner repo) d
      ≡ run (get_repo_by_owner_and_name owner repo >>= repository_or_404) d
unfolding get_repository get_repo_by_owner_and_name of_user_or_organization in_organization
    organization_unless repository_of_owner repository_or_404 user_named organization_named
get_repository_lem owner repo d = ground arith

module _ (codecs : Codecs) where
  -- The token is an access token of the user, and no challenge of the second factor.
  pub record IsTokenOf (token : Option String) (users : RepoStore) (user : User) : Type 0 where
    pub text : String
    pub claims : Claims
    pub presented : token ≡ some text
    pub decoded : codecs.jwt_decode text ≡ some claims
    pub access : is_access claims.type ≡ true
    pub challenge : is_challenge claims.purpose ≡ false
    pub identified : subject_id codecs claims.sub ≡ some user.id
    pub stored : In user users.users

  user_by_id_source :
      (id : Option ℕ) (s : Session RepoStore) (user : User)
      → (user_by_id id s).0 ≡ ok user
      → (id ≡ some user.id) × In user s.current.users
  unfolding user_by_id user_or_401
  user_by_id_source none s user h = cc
  user_by_id_source (some id) s user h =
      let found : scalar_one_or_none (select (λ u. u.id == id) s.current.users) ≡ ok (some user) =
        ground arith in
      let (t, i) = select-In (λ (u : User). u.id == id) s.current.users (scalar_some _ found) in
      (ground (arith, t), i)

  claims_source :
      (decoded : Option Claims) (s : Session RepoStore) (user : User)
      → (user_of_claims codecs (if_access decoded) s).0 ≡ ok user
      → (claims : Claims) × (decoded ≡ some claims)
        × (is_access claims.type ≡ true)
        × (is_challenge claims.purpose ≡ false)
        × (subject_id codecs claims.sub ≡ some user.id)
        × In user s.current.users
  unfolding user_of_claims if_access
  claims_source none s user h = cc
  claims_source (some claims) s user h = elim (Bool-cases (is_access claims.type)) [
    | inr e ↦ ground arith
    | inl e ↦ elim (Bool-cases (is_challenge claims.purpose)) [
      | inl c ↦ ground arith
      | inr c ↦
          let (q, i) = user_by_id_source (subject_id codecs claims.sub) s user (ground arith) in
          (claims, refl, e, c, q, i)
    ]
  ]

  get_current_user_source :
      (token : Option String) (s : Session RepoStore) (user : User)
      → (get_current_user codecs token s).0 ≡ ok user
      → IsTokenOf token s.current user
  unfolding get_current_user decode_access_token
  get_current_user_source none s user h = cc
  get_current_user_source (some text) s user h =
      let (claims, q, a, c, i, m) = claims_source (codecs.jwt_decode text) s user h in
      record {
        text = text;
        claims = claims;
        presented = refl;
        decoded = q;
        access = a;
        challenge = c;
        identified = i;
        stored = m;
      }

  optional_source :
      (token : Option String) (s : Session RepoStore) (user : User)
      → (get_optional_current_user codecs token s).0 ≡ ok (some user)
      → IsTokenOf token s.current user
  unfolding get_optional_current_user none_if_http
  optional_source none s user h = cc
  optional_source (some text) s user h =
      elim (Result-cases (get_current_user codecs (some text) s).0) [
        | inl (found, e) ↦ get_current_user_source (some text) s user (ground arith)
        | inr (raised, e) ↦ ground arith
      ]

  -- Looking up who calls and what is meant writes nothing.
  get_current_user_keeps :
      (token : Option String) (s : Session RepoStore) → (get_current_user codecs token s).1 ≡ s
  unfolding get_current_user user_of_claims user_by_id user_or_401
  get_current_user_keeps token s = ground arith

  pub optional_keeps :
      (token : Option String) (s : Session RepoStore)
      → (get_optional_current_user codecs token s).1 ≡ s
  unfolding get_optional_current_user none_if_http
  optional_keeps none s = refl
  optional_keeps (some text) s = ground (arith, get_current_user_keeps (some text) s)

  pub active_keeps :
      (token : Option String) (s : Session RepoStore)
      → (get_current_active_user codecs token s).1 ≡ s
  unfolding get_current_active_user
  active_keeps token s = ground (arith, get_current_user_keeps token s)

  -- An active user's token.
  pub get_current_active_user_source :
      (token : Option String) (s : Session RepoStore) (user : User)
      → (get_current_active_user codecs token s).0 ≡ ok user
      → IsTokenOf token s.current user × (user.is_active ≡ true)
  unfolding get_current_active_user
  get_current_active_user_source token s user h =
      elim (Result-cases (get_current_user codecs token s).0) [
        | inr (raised, e) ↦ ground arith
        | inl (found, e) ↦
            let same : found ≡ user = ground arith in
            (
              get_current_user_source token s user (e ∙ ap ok same),
              ap (λ (u : User). u.is_active) (sym same) ∙ ground arith,
            )
      ]

pub get_repository_keeps :
    (owner repo : String) (s : Session RepoStore) → (get_repository owner repo s).1 ≡ s
unfolding get_repository organization_unless repository_of_owner repository_or_404 user_named
    organization_named repository_of_user repository_of_organization
get_repository_keeps owner repo s = ground arith

module _ (codecs : Codecs) (minimum : PermissionLevel) (allow_anonymous : Bool)
    (token : Option String) (repository : Repository) (s : Session RepoStore) where
  pub check_keeps : (check_repo_permission codecs minimum allow_anonymous token repository s).1 ≡ s
  unfolding check_repo_permission
  check_keeps = ground (arith, optional_keeps codecs token s)

  -- The caller whom the check let through.
  check_source :
      (l : PermissionLevel)
      → (check_repo_permission codecs minimum allow_anonymous token repository s).0 ≡ ok l
      → (user : Option User) × ((get_optional_current_user codecs token s).0 ≡ ok user)
        × (require_repo_permission s.current.access minimum allow_anonymous
              (user_id_of user)
              (for_resolver repository)
            ≡ ok l)
  unfolding check_repo_permission
  check_source l h = elim (Result-cases (get_optional_current_user codecs token s).0) [
    | inr (raised, e) ↦ ground arith
    | inl (user, e) ↦ (user, e, ground (arith, optional_keeps codecs token s))
  ]

required_source :
    (s : RepoStore) (minimum l : PermissionLevel) (user : Option ℕ) (repository : Repository)
    → require_repo_permission s.access minimum false user (for_resolver repository) ≡ ok l
    → (u : ℕ) × (user ≡ some u)
      × IsGranted s.access (some u) (for_resolver repository) l
      × (level_rank minimum ≤ level_rank l)
unfolding require_repo_permission
required_source s minimum l none repository h = cc
required_source s minimum l (some u) repository h =
    let (granted, reaches) =
      assert_permission-IsGranted s.access (for_resolver repository) (some u) minimum l
        (unfold assert_permission in h) in
    (u, refl, granted, reaches)

no_id : (u : ℕ) → user_id_of none ≡ some u → ⊥
unfolding user_id_of
no_id u q = cc

the_id : (user : User) (u : ℕ) → user_id_of (some user) ≡ some u → u ≡ user.id
unfolding user_id_of
the_id user u q = cc

-- A check that takes no anonymous callers lets a caller through only with an access token of a
-- stored user who holds, by one of the rules, a level that reaches the minimum.
pub check_repo_permission-IsGranted :
    (codecs : Codecs) (minimum l : PermissionLevel) (token : Option String)
    (repository : Repository) (s : Session RepoStore)
    → (check_repo_permission codecs minimum false token repository s).0 ≡ ok l
    → (user : User) × IsTokenOf codecs token s.current user
      × IsGranted s.current.access (some user.id) (for_resolver repository) l
      × (level_rank minimum ≤ level_rank l)
check_repo_permission-IsGranted codecs minimum l token repository s h =
    let (found, e, r) = check_source codecs minimum false token repository s l h in
    let (u, q, granted, reaches) =
      required_source s.current minimum l (user_id_of found) repository r in
    elim (Option-cases found) [
      | inl n ↦ absurd (no_id u (ap user_id_of (sym n) ∙ q))
      | inr (user, k) ↦
          let same = the_id user u (ap user_id_of (sym k) ∙ q) in
          (
            user,
            optional_source codecs token s user (e ∙ ap ok k),
            subst (λ id. IsGranted s.current.access (some id) (for_resolver repository) l) same
                granted,
            reaches,
          )
    ]

selected :
    {A : Type 0} (p : A → Bool) (xs : List A) {x : A}
    → scalar_one_or_none (select p xs) ≡ ok (some x)
    → In x xs
selected p xs h = (select-In p xs (scalar_some (select p xs) h)).1

repository_of_owner_source :
    (user organization : Option ℕ) (repo : String) (s : Session RepoStore) (repository : Repository)
    → (repository_of_owner user organization repo s).0 ≡ ok (some repository)
    → In repository s.current.repositories
unfolding repository_of_owner repository_of_user repository_of_organization
repository_of_owner_source (some u) organization repo s repository h =
    selected (is_named_of_user u repo) s.current.repositories h
repository_of_owner_source none (some o) repo s repository h =
    selected (is_named_of_organization o repo) s.current.repositories h
repository_of_owner_source none none repo s repository h = cc

-- The repository of the path is a row.
pub get_repository_source :
    (owner repo : String) (s : Session RepoStore) (repository : Repository)
    → (get_repository owner repo s).0 ≡ ok repository
    → In repository s.current.repositories
unfolding get_repository repository_or_404 user_named organization_unless organization_named
get_repository_source owner repo s repository h = elim (Result-cases (user_named owner s).0) [
  | inr (raised, e) ↦ ground arith
  | inl (user, e) ↦ elim (Result-cases (organization_unless owner user s).0) [
    | inr (raised, f) ↦ ground arith
    | inl (organization, f) ↦
        repository_of_owner_source user organization repo s repository (ground arith)
  ]
]
