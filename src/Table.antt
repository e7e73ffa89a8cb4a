-- ===== src/Table.antt =====
-- The queries of SQLAlchemy that the services send, over tables as lists of rows.
pub mod Laws
pub mod Keys
pub mod Deletes
pub mod Pages
pub mod Sorted
use pandahub.Prelude.{
  ℕ, zero, suc, ◌-◌, ◌*◌, Option, none, some, Bool, true, false, not, ◌&&◌, List, [], ◌∷◌, take,
  drop, any, ltb, ◌==◌, if◌then◌else◌,
}
use pandahub.Exceptions.{Error.multiple_results, Result, ok, err}

module _ {A : Type 0} where
  -- select(T).where(p)
  unfoldable pub select : (A → Bool) → List A → List A
  select p [] = []
  select p (x ∷ xs) = if p x then x ∷ select p xs else select p xs

  -- result.scalar_one_or_none(): two rows raise MultipleResultsFound
  unfoldable pub scalar_one_or_none : List A → Result (Option A)
  scalar_one_or_none [] = ok none
  scalar_one_or_none (x ∷ []) = ok (some x)
  scalar_one_or_none (x ∷ y ∷ xs) = err multiple_results

  -- UPDATE T SET … WHERE p
  unfoldable pub update_where : (A → Bool) → (A → A) → List A → List A
  update_where p f [] = []
  update_where p f (x ∷ xs) = (if p x then f x else x) ∷ update_where p f xs

  -- DELETE FROM T WHERE p
  unfoldable pub delete_where : (A → Bool) → List A → List A
  delete_where p [] = []
  delete_where p (x ∷ xs) = if p x then delete_where p xs else x ∷ delete_where p xs

  -- A unique constraint: no row agrees on the key with a later one.
  unfoldable pub unique : (A → A → Bool) → List A → Bool
  unique same [] = true
  unique same (x ∷ xs) = not (any (same x) xs) && unique same xs

  -- ORDER BY key: a row goes before the first one that must not precede it.
  unfoldable pub insert_by : (A → A → Bool) → A → List A → List A
  insert_by before x [] = x ∷ []
  insert_by before x (y ∷ ys) = if before y x then y ∷ insert_by before x ys else x ∷ y ∷ ys

  unfoldable pub order_by : (A → A → Bool) → List A → List A
  order_by before [] = []
  order_by before (x ∷ xs) = insert_by before x (order_by before xs)

  -- .offset((page - 1) * per_page).limit(per_page)
  unfoldable pub paginate : (page per_page : ℕ) → List A → List A
  paginate page per_page rows = take per_page (drop ((page - 1) * per_page) rows)

-- The offset (page - 1) * per_page is negative, which PostgreSQL refuses.
unfoldable pub bad_offset : (page per_page : ℕ) → Bool
bad_offset page per_page = page == 0 && not (per_page == 0)

-- select(func.max(column))
unfoldable pub max_of : List ℕ → Option ℕ
max_of [] = none
max_of (n ∷ ns) = elim (max_of ns) [ none ↦ some n | some m ↦ if ltb n m then some m else some n ]
