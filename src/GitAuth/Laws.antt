-- ===== src/GitAuth/Laws.antt =====
-- auth.py: who is let in.
use text.Mathlib.Text.{◌==◌ as str_eq}
use text.Mathlib.TextEquality.{eq_iff}
use pandahub.Prelude.{
  ℕ, ◌≡◌, refl, ap, sym, ◌∙◌, ◌⊎◌, inl, inr, Option, none, some, Bool, true, false, not, ◌&&◌, ◌||◌,
  String, arith, ◌==◌, Bool-cases, Option-cases,
}
use pandahub.Exceptions.{Result, ok, Result-cases}
use pandahub.Session.{Session}
use pandahub.Table.{select, scalar_one_or_none}
use pandahub.Table.Laws.{In, select-In, scalar_some}
use pandahub.GitAuth.{
  touch, satisfies_constraints, User, PersonalAccessToken, AuthStore, Codecs, find_user, if_active,
  is_expired, permits, touch_and_return, use_token, subject, decode_access_token, bearer_id,
  user_of_id, bearer, hash_token, password, token_user, basic_unless, authenticate_git_request,
  strip_prefix,
}

if_active_lem :
    (o : Option User) (u : User) → if_active o ≡ some u → (o ≡ some u) × (u.is_active ≡ true)
unfolding if_active
if_active_lem none u h = cc
if_active_lem (some v) u h = elim (Bool-cases v.is_active) [
  | inl e ↦ let q : v ≡ u = ground arith in (ap some q, ap (λ (x : User). x.is_active) (sym q) ∙ e)
  | inr e ↦ absurd (ground arith)
]

ok_injective : {A : Type 0} {x y : A} → ◌≡◌ {A = Result A} (ok x) (ok y) → x ≡ y
ok_injective h = cc

found_user :
    (d : AuthStore) (id : ℕ) (u : User)
    → scalar_one_or_none (select (λ u. u.id == id) d.users) ≡ ok (some u)
    → In u d.users × (u.id ≡ id)
found_user d id u h =
    let (t, i) = select-In (λ (u : User). u.id == id) d.users (scalar_some _ h) in (i, ground arith)

-- The time of use is written or not: the answer is the same.
pub touch_and_return_lem :
    (now : ℕ) (pat : PersonalAccessToken) (o : Option User) (s : Session AuthStore)
    → (touch_and_return now pat o s).0 ≡ ok o
unfolding touch_and_return
touch_and_return_lem now pat none s = refl
touch_and_return_lem now pat (some user) s =
    elim (Bool-cases (satisfies_constraints (touch now pat.id s.current))) [
      | inl e ↦ rw e refl
      | inr e ↦ rw e refl
    ]

module _ (codecs : Codecs) (s : Session AuthStore) (u : User) where
  user_of_id_source :
      (o : Option ℕ)
      → (user_of_id codecs o s).0 ≡ ok (some u)
      → (o ≡ some u.id) × In u s.current.users × (u.is_active ≡ true)
  unfolding user_of_id find_user
  user_of_id_source none h = cc
  user_of_id_source (some id) h =
      elim (Result-cases (scalar_one_or_none (select (λ u. u.id == id) s.current.users))) [
        | inl (o, e) ↦
            let (q, a) = if_active_lem o u (ground arith) in
            let (i, k) = found_user s.current id u (e ∙ ap ok q) in (ap some (sym k), i, a)
        | inr (x, e) ↦ absurd (ground arith)
      ]

  -- How a bearer token names the user.
  abbrev pub IsBearer : Option String → Type 0
  IsBearer o =
      (token : String) × (sub : String) × (o ≡ some token)
      × (subject (decode_access_token codecs token) ≡ some sub)
      × (codecs.parse_uuid sub ≡ some u.id)

  bearer_source :
      (o : Option String)
      → (bearer codecs o s).0 ≡ ok (some u)
      → IsBearer o × In u s.current.users × (u.is_active ≡ true)
  unfolding bearer bearer_id
  bearer_source none h = cc
  bearer_source (some token) h =
      let (q, i, a) =
        user_of_id_source (bearer_id codecs (subject (decode_access_token codecs token))) h in
      elim (Option-cases (subject (decode_access_token codecs token))) [
        | inl e ↦ absurd (ground arith)
        | inr (sub, e) ↦ ((token, sub, refl, e, rw e at q), i, a)
      ]

  use_token_source :
      (now : ℕ) (scope : String) (o : Option PersonalAccessToken)
      → (use_token now scope o s).0 ≡ ok (some u)
      → (pat : PersonalAccessToken) × (o ≡ some pat)
        × (is_expired now pat ≡ false)
        × (permits scope pat ≡ true)
        × (pat.user_id ≡ u.id)
        × In u s.current.users
        × (u.is_active ≡ true)
  unfolding use_token find_user touch_and_return
  use_token_source now scope none h = cc
  use_token_source now scope (some pat) h =
      elim (Bool-cases (is_expired now pat || not (permits scope pat))) [
        | inl e ↦ absurd (ground arith)
        | inr e ↦
            elim (Result-cases
              (scalar_one_or_none (select (λ u. u.id == pat.user_id) s.current.users))) [
                | inr (x, f) ↦ absurd (ground arith)
                | inl (o, f) ↦
                    let answer : (touch_and_return now pat (if_active o) s).0 ≡ ok (some u) =
                      rw (e, f) at h in
                    let (q, a) = if_active_lem o u (
                      ok_injective (sym (touch_and_return_lem now pat (if_active o) s) ∙ answer)) in
                    let (i, k) = found_user s.current pat.user_id u (f ∙ ap ok q) in
                    (pat, refl, ground arith, ground arith, sym k, i, a)
              ]
      ]

  -- How a personal access token of the store lets the user in.
  abbrev pub IsGranted : (now : ℕ) → (scope : String) → Option String → Type 0
  IsGranted now scope o =
      (pat_raw : String) × (pat : PersonalAccessToken) × (o ≡ some pat_raw)
      × In pat s.current.tokens
      × (pat.token_hash ≡ codecs.sha256 pat_raw)
      × (pat.revoked ≡ false)
      × (is_expired now pat ≡ false)
      × (permits scope pat ≡ true)
      × (pat.user_id ≡ u.id)

  token_user_source :
      (now : ℕ) (scope : String) (o : Option String)
      → (token_user codecs now scope o s).0 ≡ ok (some u)
      → IsGranted now scope o × In u s.current.users × (u.is_active ≡ true)
  unfolding token_user hash_token
  token_user_source now scope none h = cc
  token_user_source now scope (some pat_raw) h =
      let live : PersonalAccessToken → Bool =
        λ t. str_eq t.token_hash (codecs.sha256 pat_raw) && not t.revoked in
      elim (Result-cases (scalar_one_or_none (select live s.current.tokens))) [
        | inr (x, f) ↦ absurd (ground arith)
        | inl (o, f) ↦
            let (pat, q, e, p, k, i, a) = use_token_source now scope o (rw f at h) in
            let (t, j) = select-In live s.current.tokens (scalar_some _ (f ∙ ap ok q)) in
            (
              (
                pat_raw,
                pat,
                refl,
                j,
                (eq_iff pat.token_hash (codecs.sha256 pat_raw)).0 (ground arith),
                ground arith,
                e,
                p,
                k,
              ),
              i,
              a,
            )
      ]

  user_of_id_keeps : (o : Option ℕ) → (user_of_id codecs o s).1 ≡ s
  unfolding user_of_id find_user
  user_of_id_keeps none = refl
  user_of_id_keeps (some id) =
      elim (Result-cases (scalar_one_or_none (select (λ u. u.id == id) s.current.users))) [
        | inl (o, e) ↦ rw e refl
        | inr (x, e) ↦ rw e refl
      ]

  bearer_keeps : (o : Option String) → (bearer codecs o s).1 ≡ s
  unfolding bearer
  bearer_keeps none = refl
  bearer_keeps (some token) =
      user_of_id_keeps (bearer_id codecs (subject (decode_access_token codecs token)))

  -- Only an active user of the store is let in: one whom a valid access token names, or the owner of
  -- a stored personal access token that the password field holds, if it is neither revoked nor
  -- expired and its scopes permit the request.
  pub authenticate_git_request_source :
      (now : ℕ) (scope header : String)
      → (authenticate_git_request codecs now (some header) scope s).0 ≡ ok (some u)
      → In u s.current.users
        × (u.is_active ≡ true)
        × (IsBearer (strip_prefix "Bearer " header)
            ⊎ IsGranted now scope (password codecs (strip_prefix "Basic " header)))
  unfolding authenticate_git_request basic_unless
  authenticate_git_request_source now scope header h =
      let token = strip_prefix "Bearer " header in
      elim (Result-cases (bearer codecs token s).0) [
        | inr (x, f) ↦ absurd (ground arith)
        | inl (o, f) ↦ elim (Option-cases o) [
          | inl e ↦
              let (g, i, a) =
                token_user_source now scope (password codecs (strip_prefix "Basic " header))
                  (rw (bearer_keeps token, f, e) at h) in
              (i, a, inr g)
          | inr (v, e) ↦
              let same : ok (some v) ≡ ok (some u) = rw (bearer_keeps token, f, e) at h in
              let (b, i, a) = bearer_source token (f ∙ ap ok e ∙ same) in (i, a, inl b)
        ]
      ]
