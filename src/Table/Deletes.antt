-- ===== src/Table/Deletes.antt =====
-- DELETE: which rows are left, and what still holds of them.
use pandahub.Prelude.{
  ◌≡◌, refl, ap, sym, ◌∙◌, inl, inr, Bool, true, false, List, [], ◌∷◌, ◌++◌, arith, any, all, All,
  Bool-cases,
}
use pandahub.Table.Laws.{In}
use pandahub.Table.{delete_where, unique}

module _ {A : Type 0} where
  pub any-delete_where :
      (q p : A → Bool) (xs : List A) → any q xs ≡ false → any q (delete_where p xs) ≡ false
  unfolding delete_where
  any-delete_where q p [] h = refl
  any-delete_where q p (x ∷ xs) h = ground (arith, any-delete_where q p xs)

  pub all-delete_where :
      (q p : A → Bool) (xs : List A) → all q xs ≡ true → all q (delete_where p xs) ≡ true
  unfolding delete_where
  all-delete_where q p [] h = refl
  all-delete_where q p (x ∷ xs) h = ground (arith, all-delete_where q p xs)

  pub All-delete_where :
      (P : A → Type 0) (p : A → Bool) (xs : List A) → All P xs → All P (delete_where p xs)
  unfolding delete_where
  All-delete_where P p [] h = h
  All-delete_where P p (x ∷ xs) h = elim (Bool-cases (p x)) [
    | inl e ↦ rw e (All-delete_where P p xs h.1)
    | inr e ↦ rw e (h.0, All-delete_where P p xs h.1)
  ]

  -- No row that a query would find is left, if the deletion takes all of them.
  pub delete_where_gone :
      (q p : A → Bool) (xs : List A)
      → All (λ x. q x ≡ true → p x ≡ true) xs
      → any q (delete_where p xs) ≡ false
  unfolding delete_where
  delete_where_gone q p [] h = refl
  delete_where_gone q p (x ∷ xs) h = ground (arith, h.0, delete_where_gone q p xs h.1)

  -- Fewer rows keep the keys unique.
  pub unique-delete_where :
      (same : A → A → Bool) (p : A → Bool) (xs : List A)
      → unique same xs ≡ true
      → unique same (delete_where p xs) ≡ true
  unfolding unique delete_where
  unique-delete_where same p [] h = refl
  unique-delete_where same p (x ∷ xs) h =
      ground (arith, any-delete_where (same x) p xs, unique-delete_where same p xs)

  pub delete_where_none : (p : A → Bool) (xs : List A) → any p xs ≡ false → delete_where p xs ≡ xs
  unfolding delete_where
  delete_where_none p [] h = refl
  delete_where_none p (x ∷ xs) h = ground (arith, delete_where_none p xs)

  pub delete_where-append :
      (p : A → Bool) (xs ys : List A)
      → delete_where p (xs ++ ys) ≡ delete_where p xs ++ delete_where p ys
  unfolding delete_where
  delete_where-append p [] ys = refl
  delete_where-append p (x ∷ xs) ys = ground (arith, delete_where-append p xs ys)

  pub any-delete_where_self : (p : A → Bool) (xs : List A) → any p (delete_where p xs) ≡ false
  unfolding delete_where
  any-delete_where_self p [] = refl
  any-delete_where_self p (x ∷ xs) = ground (arith, any-delete_where_self p xs)

  pub In-delete_where :
      (p : A → Bool) (xs : List A) {x : A} → p x ≡ false → In x xs → In x (delete_where p xs)
  unfolding delete_where
  In-delete_where p [] n i = i
  In-delete_where p (y ∷ ys) n (inl q) = rw (ap p (sym q) ∙ n) (inl q)
  In-delete_where p (y ∷ ys) n (inr i) = elim (Bool-cases (p y)) [
    | inl e ↦ rw e (In-delete_where p ys n i)
    | inr e ↦ rw e (inr (In-delete_where p ys n i))
  ]
