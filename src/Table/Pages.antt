-- ===== src/Table/Pages.antt =====
-- Pages: every row of a listing stands on one of them.
use native.Mathlib.Nat.{div-add-mod}
use Prim.Native.Nat.{◌/◌}
use pandahub.Prelude.{
  false, ℕ, zero, suc, ◌+◌, ◌-◌, ◌*◌, ◌≤◌, ◌<◌, ◌≡◌, ◌⊎◌, inl, inr, Bool, List, [], ◌∷◌, arith,
  take, drop, Bool-cases,
}
use pandahub.Table.{bad_offset, insert_by, order_by, paginate}
use pandahub.Table.Laws.{In}

pub no_bad_offset : (page per_page : ℕ) → 1 ≤ page → bad_offset page per_page ≡ false
unfolding bad_offset
no_bad_offset page per_page h = ground arith

module _ {A : Type 0} where
  In-take :
      (xs : List A) (x : A)
      → In x xs
      → (i : ℕ) × ((a n : ℕ) → a ≤ i → i < a + n → In x (take n (drop a xs)))
  In-take [] x m = elim m [ ]
  In-take (y ∷ ys) x (inl q) = (0, λ a n. at_head a n)
    where
      at_head : (a n : ℕ) → a ≤ 0 → 0 < a + n → In x (take n (drop a (y ∷ ys)))
      at_head zero zero h k = absurd (omega arith)
      at_head zero (suc n) h k = inl q
      at_head (suc a) n h k = absurd (omega arith)
  In-take (y ∷ ys) x (inr m) = let (j, f) = In-take ys x m in (suc j, λ a n. further j f a n)
    where
      further :
          (j : ℕ)
          → ((a n : ℕ) → a ≤ j → j < a + n → In x (take n (drop a ys)))
          → (a n : ℕ) → a ≤ suc j
          → suc j < a + n
          → In x (take n (drop a (y ∷ ys)))
      further j f zero zero h k = absurd (omega arith)
      further j f zero (suc n) h k = inr (f 0 n (omega arith) (omega arith))
      further j f (suc a) n h k = f a n (omega arith) (omega arith)

  pub In-paginate :
      (per_page : ℕ) (xs : List A) (x : A)
      → 0 < per_page
      → In x xs
      → (page : ℕ) × (1 ≤ page) × In x (paginate page per_page xs)
  unfolding paginate
  In-paginate per_page xs x pos m =
      let (i, f) = In-take xs x m in
      (
        i / per_page + 1,
        omega arith,
        f ((i / per_page + 1 - 1) * per_page) per_page (grind (arith, div-add-mod i per_page))
            (grind (arith, div-add-mod i per_page)),
      )

  In-insert_by :
      (before : A → A → Bool) (y : A) (xs : List A) (x : A)
      → (x ≡ y) ⊎ In x xs
      → In x (insert_by before y xs)
  unfolding insert_by
  In-insert_by before y [] x m = m
  In-insert_by before y (z ∷ zs) x (inl q) = elim (Bool-cases (before z y)) [
    | inl e ↦ rw e (inr (In-insert_by before y zs x (inl q)))
    | inr e ↦ rw e (inl q)
  ]
  In-insert_by before y (z ∷ zs) x (inr (inl q)) = elim (Bool-cases (before z y)) [
    | inl e ↦ rw e (inl q)
    | inr e ↦ rw e (inr (inl q))
  ]
  In-insert_by before y (z ∷ zs) x (inr (inr m)) = elim (Bool-cases (before z y)) [
    | inl e ↦ rw e (inr (In-insert_by before y zs x (inr m)))
    | inr e ↦ rw e (inr (inr m))
  ]

  pub In-order_by :
      (before : A → A → Bool) (xs : List A) (x : A) → In x xs → In x (order_by before xs)
  unfolding order_by
  In-order_by before [] x m = m
  In-order_by before (y ∷ ys) x (inl q) = In-insert_by before y (order_by before ys) x (inl q)
  In-order_by before (y ∷ ys) x (inr m) =
      In-insert_by before y (order_by before ys) x (inr (In-order_by before ys x m))
