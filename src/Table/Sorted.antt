-- ===== src/Table/Sorted.antt =====
-- ORDER BY: the rows come out in order.
use pandahub.Prelude.{◌≡◌, inl, inr, Bool, true, false, List, [], ◌∷◌, Bool-cases}
use pandahub.Table.{insert_by, order_by}

module _ {A : Type 0} (before : A → A → Bool) where
  -- No row goes before the one it follows.
  abbrev pub IsSorted : List A → Type 0
  IsSorted [] = Unit {0}
  IsSorted (x ∷ []) = Unit {0}
  IsSorted (x ∷ y ∷ ys) = (before y x ≡ false) × IsSorted (y ∷ ys)

  module _ (asym : (x y : A) → before x y ≡ true → before y x ≡ false) where
    insert_by-IsSorted : (x : A) (xs : List A) → IsSorted xs → IsSorted (insert_by before x xs)
    unfolding insert_by
    insert_by-IsSorted x [] h = tt
    insert_by-IsSorted x (y ∷ []) h = elim (Bool-cases (before y x)) [
      | inl e ↦ rw e (asym y x e, tt)
      | inr e ↦ rw e (e, tt)
    ]
    insert_by-IsSorted x (y ∷ z ∷ zs) h = elim (Bool-cases (before y x)) [
      | inl e ↦
          let rest = insert_by-IsSorted x (z ∷ zs) h.1 in
          elim (Bool-cases (before z x)) [
            | inl f ↦ rw (e, f) (h.0, rw f at rest)
            | inr f ↦ rw (e, f) (asym y x e, (f, h.1))
          ]
      | inr e ↦ rw e (e, h)
    ]

    pub order_by-IsSorted : (xs : List A) → IsSorted (order_by before xs)
    unfolding order_by
    order_by-IsSorted [] = tt
    order_by-IsSorted (x ∷ xs) = insert_by-IsSorted x (order_by before xs) (order_by-IsSorted xs)
