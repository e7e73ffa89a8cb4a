-- ===== src/Exceptions/Laws.antt =====
-- backend/app/core/exceptions.py: what the error log keeps and counts.
use mathlib.Core.List.{reverse_aux}
use text.Mathlib.Text.{◌==◌ as str_eq}
use text.Mathlib.TextEquality.{eq_iff}
use pandahub.Prelude.{
  ℕ, zero, suc, ◌+◌, ◌≤◌, ◌≡◌, refl, ap, ◌∙◌, ◌⊎◌, inl, inr, Bool, true, false, String, List, [],
  ◌∷◌, ◌++◌, arith, take, drop, any, ltb, ◌==◌, if◌then◌else◌, Bool-cases,
}
use pandahub.Exceptions.Log.{
  ErrorRecord, ErrorLog, record_error, get_error_log, remove_error_record, Count, count_record,
  count_records, insert_count, sort_counts, get_error_stats,
}

-- The errors are recorded one after the other, the first one first.
abbrev pub record_all : List ErrorRecord → ErrorLog → ErrorLog
record_all [] log = log
record_all (r ∷ rs) log = record_all rs (record_error r log)

take-take : {A : Type 0} (n : ℕ) (x : A) (xs : List A) → take n (x ∷ take n xs) ≡ take n (x ∷ xs)
take-take zero x xs = refl
take-take (suc n) x xs = ap (λ l. x ∷ l) (shorter n xs)
  where
    shorter : {A : Type 0} (n : ℕ) (xs : List A) → take n (take (suc n) xs) ≡ take n xs
    shorter zero xs = refl
    shorter (suc n) [] = refl
    shorter (suc n) (x ∷ xs) = ap (λ l. x ∷ l) (shorter n xs)

record_all-take :
    (rs : List ErrorRecord) (log : ErrorLog)
    → record_all rs (take 500 log) ≡ take 500 (reverse_aux rs log)
unfolding record_error
record_all-take [] log = refl
record_all-take (r ∷ rs) log =
    ap (record_all rs) (take-take 500 r log) ∙ record_all-take rs (r ∷ log)

-- After any number of errors the log holds the last 500 of them, the newest first, and a page of it
-- is that stretch of them.
pub get_error_log-record_error :
    (rs : List ErrorRecord) (limit offset : ℕ)
    → get_error_log limit offset (record_all rs [])
      ≡ take limit (drop offset (take 500 (reverse_aux rs [])))
unfolding get_error_log
get_error_log-record_error rs limit offset =
    ap (λ l. take limit (drop offset l)) (record_all-take rs [])

abbrev pub occurrences : String → ErrorLog → ℕ
occurrences key [] = 0
occurrences key (r ∷ log) =
    let rest = occurrences key log in if str_eq r.code key then suc rest else rest

abbrev pub count_of : String → List Count → ℕ
count_of key [] = 0
count_of key (c ∷ counts) =
    let rest = count_of key counts in if str_eq c.key key then c.count + rest else rest

counted :
    (b : Bool) (n rest : ℕ)
    → (if b then n + 1 + rest else rest)
      ≡ (if b then suc (if b then n + rest else rest) else (if b then n + rest else rest))
counted true n rest = omega arith
counted false n rest = refl

swapped :
    (a b : Bool) (n rest : ℕ)
    → (if a then n + (if b then suc rest else rest) else (if b then suc rest else rest))
      ≡ (if b then suc (if a then n + rest else rest) else (if a then n + rest else rest))
swapped a b n rest = ground arith

count_of-count_record :
    (key : String) (r : ErrorRecord) (counts : List Count)
    → count_of key (count_record r counts)
      ≡ (if str_eq r.code key then suc (count_of key counts) else count_of key counts)
unfolding count_record
count_of-count_record key r [] = ground arith
count_of-count_record key r (c ∷ counts) = elim (Bool-cases (str_eq c.key r.code)) [
  | inl e ↦
      rw e
        (rw ((eq_iff c.key r.code).0 e) (counted (str_eq r.code key) c.count (count_of key counts)))
  | inr e ↦
      rw (e, count_of-count_record key r counts)
        (swapped (str_eq c.key key) (str_eq r.code key) c.count (count_of key counts))
]

count_of-count_records :
    (key : String) (log : ErrorLog) (counts : List Count)
    → count_of key (count_records log counts) ≡ occurrences key log + count_of key counts
unfolding count_records
count_of-count_records key [] counts = omega arith
count_of-count_records key (r ∷ log) counts = ground (
  arith,
  count_of-count_records key log (count_record r counts),
  count_of-count_record key r counts,
)

count_of-insert_count :
    (key : String) (c : Count) (counts : List Count)
    → count_of key (insert_count c counts) ≡ count_of key (c ∷ counts)
unfolding insert_count
count_of-insert_count key c [] = refl
count_of-insert_count key c (d ∷ counts) = ground (arith, count_of-insert_count key c counts)

count_of-sort_counts :
    (key : String) (counts : List Count) → count_of key (sort_counts counts) ≡ count_of key counts
unfolding sort_counts
count_of-sort_counts key [] = refl
count_of-sort_counts key (c ∷ counts) =
    ground
      (arith, count_of-insert_count key c (sort_counts counts), count_of-sort_counts key counts)

-- The entries come in descending order of their counts.
abbrev pub IsDescending : List Count → Type 0
IsDescending [] = Unit {0}
IsDescending (c ∷ []) = Unit {0}
IsDescending (c ∷ d ∷ counts) = (d.count ≤ c.count) × IsDescending (d ∷ counts)

insert_count-IsDescending :
    (c : Count) (counts : List Count) → IsDescending counts → IsDescending (insert_count c counts)
unfolding insert_count
insert_count-IsDescending c [] h = tt
insert_count-IsDescending c (d ∷ []) h = elim (Bool-cases (ltb c.count d.count)) [
  | inl e ↦ rw e (ground arith, tt)
  | inr e ↦ rw e (ground arith, tt)
]
insert_count-IsDescending c (d ∷ f ∷ counts) h =
    let rest = insert_count-IsDescending c (f ∷ counts) h.1 in
    elim (Bool-cases (ltb c.count d.count)) [
      | inl e ↦ elim (Bool-cases (ltb c.count f.count)) [
        | inl g ↦ rw (e, g) (h.0, rw g at rest)
        | inr g ↦ rw (e, g) (ground arith, (ground arith, h.1))
      ]
      | inr e ↦ rw e (ground arith, h)
    ]

sort_counts-IsDescending : (counts : List Count) → IsDescending (sort_counts counts)
unfolding sort_counts
sort_counts-IsDescending [] = tt
sort_counts-IsDescending (c ∷ counts) =
    insert_count-IsDescending c (sort_counts counts) (sort_counts-IsDescending counts)

-- The statistics count every error code as often as it is logged, the most frequent first.
pub get_error_stats_lem :
    (log : ErrorLog)
    → ((key : String) → count_of key (get_error_stats log) ≡ occurrences key log)
      × IsDescending (get_error_stats log)
unfolding get_error_stats
get_error_stats_lem log = (
  λ key.
      count_of-sort_counts key (count_records log [])
      ∙ ground (arith, count_of-count_records key log []),
  sort_counts-IsDescending (count_records log []),
)

-- The first record with the id is removed and the others keep their order; if no record has the id,
-- the log stays, and the answer says so.
pub remove_error_record_lem :
    (id : ℕ) (log : ErrorLog)
    → ((any (λ r. r.id == id) log ≡ false) × (remove_error_record id log ≡ (log, false)))
      ⊎ ((before : ErrorLog) × (r : ErrorRecord) × (after : ErrorLog) × (log ≡ before ++ r ∷ after)
          × (any (λ r. r.id == id) before ≡ false)
          × (r.id ≡ id)
          × (remove_error_record id log ≡ (before ++ after, true)))
unfolding remove_error_record
remove_error_record_lem id [] = inl (refl, refl)
remove_error_record_lem id (r ∷ log) =
    let rest = remove_error_record_lem id log in
    elim (Bool-cases (r.id == id)) [
      | inl e ↦ inr ([], r, log, refl, refl, ground arith, rw e refl)
      | inr e ↦ elim rest [
        | inl (none_left, q) ↦ inl (rw e none_left, rw (e, q) refl)
        | inr (before, found, after, p, n, i, q) ↦
            inr (r ∷ before, found, after, ap (λ l. r ∷ l) p, rw e n, i, rw (e, q) refl)
      ]
    ]
