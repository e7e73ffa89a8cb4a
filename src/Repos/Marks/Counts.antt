-- ===== src/Repos/Marks/Counts.antt =====
-- repo_service.py: how many rows of a repository a table of marks (stars or watchers) has.
use mathlib.Core.Path.{subst}
use pandahub.Prelude.{
  ℕ, suc, ◌+◌, ◌≡◌, ◌≢◌, refl, inl, inr, Bool, true, false, ◌&&◌, List, [], ◌∷◌, ◌++◌, arith, any,
  length, ◌==◌, if◌then◌else◌, Bool-cases,
}
use pandahub.Table.{select, delete_where, unique}
use pandahub.Table.Deletes.{delete_where_none}

module _ {A : Type 0} (repository_id user_id : A → ℕ) where
  abbrev pub mark_of : (repository user : ℕ) → A → Bool
  mark_of repository user x = repository_id x == repository && user_id x == user

  abbrev pub same_mark : A → A → Bool
  same_mark x y = repository_id x == repository_id y && user_id x == user_id y

  abbrev pub marks_of : ℕ → List A → ℕ
  marks_of repository xs = length (select (λ x. repository_id x == repository) xs)

  -- A new mark counts for its repository alone.
  pub marks_of-snoc :
      (repository : ℕ) (xs : List A) (m : A)
      → marks_of repository (xs ++ m ∷ []) ≡ (
          if repository_id m == repository
          then suc (marks_of repository xs)
          else marks_of repository xs)
  unfolding select
  marks_of-snoc repository [] m = ground arith
  marks_of-snoc repository (x ∷ xs) m = ground (arith, marks_of-snoc repository xs m)

  -- A deletion leaves the marks of other repositories.
  pub marks_of-delete_other :
      (other repository user : ℕ) (xs : List A)
      → other ≢ repository
      → marks_of other (delete_where (mark_of repository user) xs) ≡ marks_of other xs
  unfolding select delete_where
  marks_of-delete_other other repository user [] n = refl
  marks_of-delete_other other repository user (x ∷ xs) n =
      ground (arith, marks_of-delete_other other repository user xs n)

  only_mark :
      (repository user : ℕ) (x : A) (xs : List A)
      → mark_of repository user x ≡ true
      → any (same_mark x) xs ≡ false
      → any (mark_of repository user) xs ≡ false
  only_mark repository user x [] t h = refl
  only_mark repository user x (y ∷ ys) t h = ground (arith, only_mark repository user x ys)

  -- Of the repository itself it takes the one mark that the user has, if any.
  pub marks_of-delete :
      (repository user : ℕ) (xs : List A)
      → unique same_mark xs ≡ true
      → marks_of repository (delete_where (mark_of repository user) xs)
          + (if any (mark_of repository user) xs then 1 else 0)
        ≡ marks_of repository xs
  unfolding select delete_where unique
  marks_of-delete repository user [] u = refl
  marks_of-delete repository user (x ∷ xs) u = elim (Bool-cases (mark_of repository user x)) [
    | inl e ↦
        ground
          (arith, only_mark repository user x xs e, delete_where_none (mark_of repository user) xs)
    | inr e ↦ ground (arith, marks_of-delete repository user xs)
  ]

  pub marks_of-delete_at :
      (number repository user : ℕ) (xs : List A)
      → (number == repository) ≡ true
      → unique same_mark xs ≡ true
      → marks_of number (delete_where (mark_of repository user) xs)
          + (if any (mark_of repository user) xs then 1 else 0)
        ≡ marks_of number xs
  marks_of-delete_at number repository user xs t u =
      subst
        (λ n.
          marks_of n (delete_where (mark_of repository user) xs)
            + (if any (mark_of repository user) xs then 1 else 0)
          ≡ marks_of n xs)
        {x = repository} (ground (arith, t)) (marks_of-delete repository user xs u)
