-- ===== src/Table/Keys.antt =====
-- How writes keep unique keys, and what the largest number of a column is.
use pandahub.Exceptions.{ok}
use mathlib.Core.Path.{subst}
use mathlib.Core.Option.{get_or}
use pandahub.Prelude.{
  ℕ, ◌≤◌, ◌≡◌, refl, sym, inl, inr, Option, some, Bool, true, false, List, [], ◌∷◌, ◌++◌, map,
  arith, any, all, ◌&&◌, ◌||◌, All, ltb, Bool-cases, Option-cases,
}
use pandahub.Table.{scalar_one_or_none, select, update_where, unique, max_of}
use pandahub.Table.Laws.{scalar_unique, In-select, In-map, In-any, In}

module _ {A : Type 0} where
  pub any-snoc : (p : A → Bool) (xs : List A) (y : A) → any p (xs ++ y ∷ []) ≡ (any p xs || p y)
  any-snoc p [] y = ground arith
  any-snoc p (x ∷ xs) y = ground (arith, any-snoc p xs y)

  pub all-snoc : (p : A → Bool) (xs : List A) (y : A) → all p (xs ++ y ∷ []) ≡ (all p xs && p y)
  all-snoc p [] y = ground arith
  all-snoc p (x ∷ xs) y = ground (arith, all-snoc p xs y)

  pub select-append :
      (p : A → Bool) (xs ys : List A) → select p (xs ++ ys) ≡ select p xs ++ select p ys
  unfolding select
  select-append p [] ys = refl
  select-append p (x ∷ xs) ys = ground (arith, select-append p xs ys)

  -- A row whose key is new keeps the keys unique.
  pub unique-snoc :
      (same : A → A → Bool) (xs : List A) (y : A)
      → unique same xs ≡ true
      → any (λ x. same x y) xs ≡ false
      → unique same (xs ++ y ∷ []) ≡ true
  unfolding unique
  unique-snoc same [] y u n = refl
  unique-snoc same (x ∷ xs) y u n = ground (arith, any-snoc (same x) xs y, unique-snoc same xs y)

  -- One whose key is taken breaks them.
  pub unique-snoc_taken :
      (same : A → A → Bool) (xs : List A) (y : A)
      → any (λ x. same x y) xs ≡ true
      → unique same (xs ++ y ∷ []) ≡ false
  unfolding unique
  unique-snoc_taken same [] y n = cc
  unique-snoc_taken same (x ∷ xs) y n =
      ground (arith, any-snoc (same x) xs y, unique-snoc_taken same xs y)

  pub any-update_where :
      (q p : A → Bool) (f : A → A) (xs : List A)
      → ((x : A) → q (f x) ≡ q x)
      → any q (update_where p f xs) ≡ any q xs
  unfolding update_where
  any-update_where q p f [] h = refl
  any-update_where q p f (x ∷ xs) h = ground (arith, h x, any-update_where q p f xs h)

  -- An update that leaves the key alone keeps the keys unique.
  pub unique-update_where :
      (same : A → A → Bool) (p : A → Bool) (f : A → A) (xs : List A)
      → ((x y : A) → same x (f y) ≡ same x y)
      → ((x y : A) → same (f x) y ≡ same x y)
      → unique same (update_where p f xs) ≡ unique same xs
  unfolding update_where unique
  unique-update_where same p f [] h k = refl
  unique-update_where same p f (x ∷ xs) h k = elim (Bool-cases (p x)) [
    | inl e ↦ rw e (
        cc (
          unique-update_where same p f xs h k,
          any-update_where (same (f x)) p f xs (λ y. h (f x) y),
          any_key (f x) x xs (k x),
        ))
    | inr e ↦
        rw e
          (cc (unique-update_where same p f xs h k, any-update_where (same x) p f xs (λ y. h x y)))
  ]
    where
      any_key :
          (a b : A) (ys : List A)
          → ((y : A) → same a y ≡ same b y)
          → any (same a) ys ≡ any (same b) ys
      any_key a b [] e = refl
      any_key a b (y ∷ ys) e = cc (e y, any_key a b ys e)

  pub all-update_where :
      (q p : A → Bool) (f : A → A) (xs : List A)
      → ((x : A) → q (f x) ≡ q x)
      → all q (update_where p f xs) ≡ all q xs
  unfolding update_where
  all-update_where q p f [] h = refl
  all-update_where q p f (x ∷ xs) h = ground (arith, h x, all-update_where q p f xs h)

  pub all-cong : (p q : A → Bool) (xs : List A) → ((x : A) → p x ≡ q x) → all p xs ≡ all q xs
  all-cong p q [] h = refl
  all-cong p q (x ∷ xs) h = cc (h x, all-cong p q xs h)

  -- Other rows of the table keep their properties, and the updated ones get them.
  pub All-updated :
      (P Q : A → Type 0) (p : A → Bool) (f : A → A) (xs : List A)
      → ((x : A) → p x ≡ true → P x → Q (f x))
      → ((x : A) → p x ≡ false → P x → Q x)
      → All P xs
      → All Q (update_where p f xs)
  unfolding update_where
  All-updated P Q p f [] h k a = tt
  All-updated P Q p f (x ∷ xs) h k a = elim (Bool-cases (p x)) [
    | inl e ↦ rw e (h x e a.0, All-updated P Q p f xs h k a.1)
    | inr e ↦ rw e (k x e a.0, All-updated P Q p f xs h k a.1)
  ]

  -- A property that the update establishes or keeps holds of all rows afterwards.
  pub All-update_where :
      (P : A → Type 0) (p : A → Bool) (f : A → A) (xs : List A)
      → ((x : A) → p x ≡ true → P x → P (f x))
      → All P xs
      → All P (update_where p f xs)
  unfolding update_where
  All-update_where P p f [] h a = tt
  All-update_where P p f (x ∷ xs) h a = elim (Bool-cases (p x)) [
    | inl e ↦ rw e (h x e a.0, All-update_where P p f xs h a.1)
    | inr e ↦ rw e (a.0, All-update_where P p f xs h a.1)
  ]

  -- Two updates of the same rows are one.
  pub update_where_twice :
      (p : A → Bool) (f g : A → A) (xs : List A)
      → ((x : A) → p (f x) ≡ p x)
      → update_where p g (update_where p f xs) ≡ update_where p (λ x. g (f x)) xs
  unfolding update_where
  update_where_twice p f g [] h = refl
  update_where_twice p f g (x ∷ xs) h = ground (arith, h x, update_where_twice p f g xs h)

  -- A query by columns that the update leaves alone finds the same rows, updated.
  pub select-update_where :
      (q p : A → Bool) (f : A → A) (xs : List A)
      → ((x : A) → q (f x) ≡ q x)
      → select q (update_where p f xs) ≡ update_where p f (select q xs)
  unfolding select update_where
  select-update_where q p f [] h = refl
  select-update_where q p f (x ∷ xs) h = ground (arith, h x, select-update_where q p f xs h)

pub max_of-In : (ns : List ℕ) (n : ℕ) → In n ns → n ≤ get_or (max_of ns) 0
unfolding max_of
max_of-In [] n m = elim m [ ]
max_of-In (k ∷ ns) n (inl q) = ground arith
max_of-In (k ∷ ns) n (inr m) = ground (arith, max_of-In ns n m)

-- The largest number is one of the column's, unless the column is empty.
pub max_of_source : (ns : List ℕ) (n : ℕ) → max_of ns ≡ some n → In n ns
unfolding max_of
max_of_source [] n h = cc
max_of_source (k ∷ ns) n h = elim (Option-cases (max_of ns)) [
  | inl e ↦ inl (ground arith)
  | inr (m, e) ↦ elim (Bool-cases (ltb k m)) [
    | inl t ↦ inr (max_of_source ns n (ground arith))
    | inr t ↦ inl (ground arith)
  ]
]

module _ {A : Type 0} where
  none_same :
      (same : A → A → Bool) (x : A) (ys : List A)
      → ((a b : A) → same a b ≡ same b a)
      → any (same x) ys ≡ false
      → All (λ y. same y x ≡ true → y ≡ x) ys
  none_same same x [] sym_same h = tt
  none_same same x (y ∷ ys) sym_same h =
      (λ t. ground (arith, sym_same x y), none_same same x ys sym_same (ground arith))

  -- Under a unique key, the row with a key is the only one.
  pub unique_row :
      (same : A → A → Bool) (xs : List A) (x : A)
      → ((a b : A) → same a b ≡ same b a)
      → unique same xs ≡ true
      → In x xs
      → All (λ y. same y x ≡ true → y ≡ x) xs
  unfolding unique
  unique_row same [] x sym_same u i = tt
  unique_row same (z ∷ zs) x sym_same u (inl q) =
      subst (λ w. All (λ y. same y w ≡ true → y ≡ w) (z ∷ zs)) (sym q)
        (λ t. refl, none_same same z zs sym_same (ground arith))
  unique_row same (z ∷ zs) x sym_same u (inr i) = (
    λ t. ground (arith, In-any (same z) zs x i t),
    unique_row same zs x sym_same (ground arith) i,
  )

  update_single :
      (P : A → Type 0) (same : A → A → Bool) (f : A → A) (x : A) (ys : List A)
      → (P x → P (f x))
      → All P ys
      → All (λ y. same y x ≡ true → y ≡ x) ys
      → All P (update_where (λ y. same y x) f ys)
  unfolding update_where
  update_single P same f x [] step h k = tt
  update_single P same f x (y ∷ ys) step h k = elim (Bool-cases (same y x)) [
    | inl e ↦ rw e (
      subst (λ w. P (f w)) (sym (k.0 e)) (step (subst P (k.0 e) h.0)),
      update_single P same f x ys step h.1 k.1,
    )
    | inr e ↦ rw e (h.0, update_single P same f x ys step h.1 k.1)
  ]

  -- An update of the row with a key: the others keep their properties.
  pub All-update_row :
      (P : A → Type 0) (same : A → A → Bool) (f : A → A) (xs : List A) (x : A)
      → ((a b : A) → same a b ≡ same b a)
      → unique same xs ≡ true
      → In x xs
      → (P x → P (f x))
      → All P xs
      → All P (update_where (λ y. same y x) f xs)
  All-update_row P same f xs x sym_same u i step h =
      update_single P same f x xs step h (unique_row same xs x sym_same u i)

  pub In-snoc : (xs : List A) (x : A) → In x (xs ++ x ∷ [])
  In-snoc [] x = inl refl
  In-snoc (y ∷ ys) x = inr (In-snoc ys x)

  pub In-append : (xs ys : List A) (x : A) → In x xs → In x (xs ++ ys)
  In-append [] ys x i = elim i [ ]
  In-append (z ∷ zs) ys x (inl q) = inl q
  In-append (z ∷ zs) ys x (inr i) = inr (In-append zs ys x i)

  -- The query by a unique key finds exactly the row that has it.
  pub select_single :
      (same : A → A → Bool) (p : A → Bool) (xs : List A) (x : A)
      → ((a b : A) → p a ≡ true → p b ≡ true → same a b ≡ true)
      → unique same xs ≡ true
      → p x ≡ true
      → In x xs
      → select p xs ≡ x ∷ []
  select_single same p xs x agree u t i =
      let (r, e) = scalar_unique same p agree xs u in single (select p xs) r e (In-select p xs t i)
    where
      single : (ys : List A) (r : Option A) → scalar_one_or_none ys ≡ ok r → In x ys → ys ≡ x ∷ []
      single [] r e m = elim m [ ]
      single (y ∷ []) r e (inl q) = cc
      single (y ∷ []) r e (inr m) = elim m [ ]
      single (y ∷ z ∷ ys) r e m = unfold scalar_one_or_none in cc

  -- The largest number of the selected rows is at least that of each of them.
  pub max_of-select :
      (number : A → ℕ) (p : A → Bool) (xs : List A) (x : A)
      → p x ≡ true
      → In x xs
      → number x ≤ get_or (max_of (map number (select p xs))) 0
  max_of-select number p xs x t i = max_of-In _ (number x) (In-map number _ x (In-select p xs t i))

  -- An update that leaves its rows as they are changes nothing.
  pub update_where_same :
      (p : A → Bool) (f : A → A) (xs : List A)
      → All (λ x. p x ≡ true → f x ≡ x) xs
      → update_where p f xs ≡ xs
  unfolding update_where
  update_where_same p f [] h = refl
  update_where_same p f (x ∷ xs) h = elim (Bool-cases (p x)) [
    | inl e ↦ rw e (cc (h.0 e, update_where_same p f xs h.1))
    | inr e ↦ rw e (cc (update_where_same p f xs h.1))
  ]

  pub In-update_where :
      (p : A → Bool) (f : A → A) (xs : List A) (x : A)
      → p x ≡ true
      → In x xs
      → In (f x) (update_where p f xs)
  unfolding update_where
  In-update_where p f [] x t m = elim m [ ]
  In-update_where p f (y ∷ ys) x t (inl q) = inl (rw (← q) (rw t refl))
  In-update_where p f (y ∷ ys) x t (inr m) = inr (In-update_where p f ys x t m)
