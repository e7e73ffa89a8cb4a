-- ===== src/Table/Laws.antt =====
-- Laws of the queries.
use pandahub.Prelude.{
  ℕ, zero, suc, ◌-◌, ◌*◌, ◌≡◌, refl, ap, Option, none, some, Bool, true, false, List, [], ◌∷◌, map,
  arith, take, drop, any, All, length, length-take, length-drop, ◌≢◌, ◌∙◌, Bool-cases, ◌⊎◌, inl,
  inr, min,
}
use pandahub.Exceptions.{ok}
use pandahub.Table.{select, scalar_one_or_none, insert_by, order_by, paginate, unique}

module _ {A : Type 0} where
  -- A row stands in a table, at a position.
  abbrev pub In : A → List A → Type 0
  In x [] = ⊥
  In x (y ∷ ys) = (x ≡ y) ⊎ In x ys

  pub In-select : (p : A → Bool) (xs : List A) {x : A} → p x ≡ true → In x xs → In x (select p xs)
  unfolding select
  In-select p (y ∷ ys) t (inl q) = ground (arith, ap p q)
  In-select p (y ∷ ys) t (inr m) = ground (arith, In-select p ys t m)
  In-select p [] t h = h

  -- A selected row passes the test and stands in the table.
  pub select-In : (p : A → Bool) (xs : List A) {x : A} → In x (select p xs) → (p x ≡ true) × In x xs
  unfolding select
  select-In p [] h = elim h [ ]
  select-In p (y ∷ ys) {x} h = elim (Bool-cases (p y)) [
    | inl e ↦ elim (rw e at h) [
      | inl q ↦ (ap p q ∙ e, inl q)
      | inr m ↦ let (t, i) = select-In p ys m in (t, inr i)
    ]
    | inr e ↦ let (t, i) = select-In p ys (rw e at h) in (t, inr i)
  ]

  pub All-select : (P : A → Type 0) (p : A → Bool) (xs : List A) → All P xs → All P (select p xs)
  unfolding select
  All-select P p [] h = h
  All-select P p (x ∷ xs) h = elim (Bool-cases (p x)) [
    | inl e ↦ rw e (h.0, All-select P p xs h.1)
    | inr e ↦ rw e (All-select P p xs h.1)
  ]

  -- Every selected row passes the test.
  pub select-All : (p : A → Bool) (xs : List A) → All (λ x. p x ≡ true) (select p xs)
  unfolding select
  select-All p [] = tt
  select-All p (x ∷ xs) = elim (Bool-cases (p x)) [
    | inl e ↦ rw e (e, select-All p xs)
    | inr e ↦ rw e (select-All p xs)
  ]

  -- Without a row that passes, nothing is selected, and the other way round.
  pub select_none : (p : A → Bool) (xs : List A) → any p xs ≡ false → select p xs ≡ []
  unfolding select
  select_none p [] h = refl
  select_none p (x ∷ xs) h = ground (arith, select_none p xs)

  pub select-any : (p : A → Bool) (xs : List A) → any p xs ≡ true → select p xs ≢ []
  unfolding select
  select-any p [] h = cc
  select-any p (x ∷ xs) h = ground (arith, select-any p xs)

  -- ORDER BY only permutes: the number of rows and every property of all of them stay.
  pub length-insert_by :
      (before : A → A → Bool) (x : A) (xs : List A)
      → length (insert_by before x xs) ≡ suc (length xs)
  unfolding insert_by
  length-insert_by before x [] = refl
  length-insert_by before x (y ∷ ys) = ground (arith, length-insert_by before x ys)

  pub length-order_by :
      (before : A → A → Bool) (xs : List A) → length (order_by before xs) ≡ length xs
  unfolding order_by
  length-order_by before [] = refl
  length-order_by before (x ∷ xs) =
      length-insert_by before x (order_by before xs) ∙ ap suc (length-order_by before xs)

  All-insert_by :
      (P : A → Type 0) (before : A → A → Bool) (x : A) (xs : List A)
      → P x
      → All P xs
      → All P (insert_by before x xs)
  unfolding insert_by
  All-insert_by P before x [] hx h = (hx, tt)
  All-insert_by P before x (y ∷ ys) hx h = elim (Bool-cases (before y x)) [
    | inl e ↦ rw e (h.0, All-insert_by P before x ys hx h.1)
    | inr e ↦ rw e (hx, h)
  ]

  pub All-order_by :
      (P : A → Type 0) (before : A → A → Bool) (xs : List A) → All P xs → All P (order_by before xs)
  unfolding order_by
  All-order_by P before [] h = h
  All-order_by P before (x ∷ xs) h =
      All-insert_by P before x (order_by before xs) h.0 (All-order_by P before xs h.1)

  pub All-take : (P : A → Type 0) (n : ℕ) (xs : List A) → All P xs → All P (take n xs)
  All-take P zero xs h = tt
  All-take P (suc n) [] h = h
  All-take P (suc n) (x ∷ xs) h = (h.0, All-take P n xs h.1)

  pub All-drop : (P : A → Type 0) (n : ℕ) (xs : List A) → All P xs → All P (drop n xs)
  All-drop P zero xs h = h
  All-drop P (suc n) [] h = h
  All-drop P (suc n) (x ∷ xs) h = All-drop P n xs h.1

  pub All-paginate :
      (P : A → Type 0) (page per_page : ℕ) (xs : List A)
      → All P xs
      → All P (paginate page per_page xs)
  unfolding paginate
  All-paginate P page per_page xs h =
      All-take P per_page _ (All-drop P ((page - 1) * per_page) xs h)

  pub length-paginate :
      (page per_page : ℕ) (xs : List A)
      → length (paginate page per_page xs) ≡ min per_page (length xs - (page - 1) * per_page)
  unfolding paginate
  length-paginate page per_page xs = omega (
    arith,
    length-take per_page (drop ((page - 1) * per_page) xs),
    length-drop ((page - 1) * per_page) xs,
  )

  -- A page's rows stand between those of the pages before it and the rest.
  pub All-implies : (P Q : A → Type 0) (xs : List A) → ((x : A) → P x → Q x) → All P xs → All Q xs
  All-implies P Q [] f h = h
  All-implies P Q (x ∷ xs) f h = (f x h.0, All-implies P Q xs f h.1)

  pub All-In : (P : A → Type 0) (xs : List A) {x : A} → All P xs → In x xs → P x
  All-In P [] h m = elim m [ ]
  All-In P (y ∷ ys) h (inl q) = rw q h.0
  All-In P (y ∷ ys) h (inr m) = All-In P ys h.1 m

module _ {A B : Type 0} where
  pub In-map : (f : A → B) (xs : List A) (x : A) → In x xs → In (f x) (map f xs)
  In-map f [] x m = m
  In-map f (y ∷ ys) x (inl q) = inl (ap f q)
  In-map f (y ∷ ys) x (inr m) = inr (In-map f ys x m)

  pub map-In : (f : A → B) (xs : List A) {y : B} → In y (map f xs) → (x : A) × In x xs × (y ≡ f x)
  map-In f [] m = elim m [ ]
  map-In f (x ∷ xs) (inl q) = (x, inl refl, q)
  map-In f (x ∷ xs) (inr m) = let (z, i, q) = map-In f xs m in (z, inr i, q)

module _ {A : Type 0} where
  pub any-In : (p : A → Bool) (xs : List A) → any p xs ≡ true → (x : A) × In x xs × (p x ≡ true)
  any-In p [] h = cc
  any-In p (y ∷ ys) h = elim (Bool-cases (p y)) [
    | inl e ↦ (y, inl refl, e)
    | inr e ↦ let (x, i, t) = any-In p ys (ground arith) in (x, inr i, t)
  ]

  pub In-any : (p : A → Bool) (xs : List A) (x : A) → In x xs → p x ≡ true → any p xs ≡ true
  In-any p [] x m t = elim m [ ]
  In-any p (y ∷ ys) x (inl q) t = ground (arith, ap p q)
  In-any p (y ∷ ys) x (inr m) t = ground (arith, In-any p ys x m t)

module _ {A : Type 0} (same : A → A → Bool) (p : A → Bool)
    (agree : (x y : A) → p x ≡ true → p y ≡ true → same x y ≡ true) where
  select_other : (x : A) (ys : List A) → p x ≡ true → any (same x) ys ≡ false → select p ys ≡ []
  unfolding select
  select_other x [] t h = refl
  select_other x (y ∷ ys) t h = elim (Bool-cases (p y)) [
    | inl e ↦ ground (arith, agree x y t e)
    | inr e ↦ rw e (select_other x ys t (ground arith))
  ]

  -- Under a unique key, a query by the key never finds two rows.
  pub scalar_unique :
      (xs : List A)
      → unique same xs ≡ true
      → (r : Option A) × (scalar_one_or_none (select p xs) ≡ ok r)
  unfolding select unique scalar_one_or_none
  scalar_unique [] h = (none, refl)
  scalar_unique (x ∷ xs) h = elim (Bool-cases (p x)) [
    | inl e ↦ (some x, rw e (rw (select_other x xs e (ground arith)) refl))
    | inr e ↦ rw e (scalar_unique xs (ground arith))
  ]

-- A query of one column finds as many rows.
pub scalar-map :
    {A B : Type 0} (f : A → B) (xs : List A) {r : Option A}
    → scalar_one_or_none xs ≡ ok r
    → (s : Option B) × (scalar_one_or_none (map f xs) ≡ ok s)
unfolding scalar_one_or_none
scalar-map f [] h = (none, refl)
scalar-map f (x ∷ []) h = (some (f x), refl)
scalar-map f (x ∷ y ∷ xs) h = cc

-- What the query of one row returned.
pub scalar_some : {A : Type 0} (xs : List A) {x : A} → scalar_one_or_none xs ≡ ok (some x) → In x xs
unfolding scalar_one_or_none
scalar_some [] h = cc
scalar_some (y ∷ []) h = inl (cc)
scalar_some (y ∷ z ∷ ys) h = cc

-- A row in the table is the one that the query returns.
pub scalar_In :
    {A : Type 0} (xs : List A) (x : A) {r : Option A}
    → scalar_one_or_none xs ≡ ok r
    → In x xs
    → r ≡ some x
unfolding scalar_one_or_none
scalar_In [] x h m = elim m [ ]
scalar_In (y ∷ []) x h (inl q) = cc
scalar_In (y ∷ []) x h (inr m) = elim m [ ]
scalar_In (y ∷ z ∷ ys) x h m = cc

two_rows : {A : Type 0} (y : A) (ys : List A) → scalar_one_or_none (y ∷ ys) ≢ ok none
unfolding scalar_one_or_none
two_rows y [] = λ q. cc
two_rows y (z ∷ zs) = λ q. cc

-- A query that found nothing.
pub scalar_none :
    {A : Type 0} (p : A → Bool) (xs : List A)
    → scalar_one_or_none (select p xs) ≡ ok none
    → any p xs ≡ false
unfolding select
scalar_none p [] h = refl
scalar_none p (x ∷ xs) h = elim (Bool-cases (p x)) [
  | inl e ↦ absurd (two_rows x (select p xs) (rw e at h))
  | inr e ↦ ground (arith, scalar_none p xs (rw e at h))
]
