-- ===== src/RateLimit/Laws.antt =====
-- core/rate_limit.py: how many of a window's requests pass.
use text.Mathlib.Text.{◌==◌ as str_eq}
use text.Mathlib.TextEquality.{eq_iff}
use pandahub.Prelude.{
  ℕ, ◌+◌, ◌-◌, ◌≡◌, refl, ◌∙◌, inl, inr, Option, Bool, true, false, String, List, [], ◌∷◌, arith,
  ltb, ◌==◌, Bool-cases, if◌then◌else◌, min,
}
use pandahub.Exceptions.{Result, ok, err}
use pandahub.RateLimit.{RateLimiter, Redis, key, expire_if_first, allowed, call}

-- Within a window, in which no key expires: INCR adds one to the counter of the key and to no other,
-- and EXPIRE changes no counter.
pub record IsCounter {R : Type 0} (redis : Redis R) (counter : String → R → ℕ) : Type 0 where
  pub counted : (k : String) (r : R) → (redis.incr k r).0 ≡ 1 + counter k r
  pub own :
      (k other : String) (r : R)
      → str_eq k other ≡ true
      → counter other (redis.incr k r).1 ≡ 1 + counter other r
  pub others :
      (k other : String) (r : R)
      → str_eq k other ≡ false
      → counter other (redis.incr k r).1 ≡ counter other r
  pub expired :
      (k other : String) (seconds : ℕ) (r : R)
      → counter other (redis.expire k seconds r) ≡ counter other r

unfoldable pub is_allowed : Result (Unit {0}) → Bool
is_allowed (ok u) = true
is_allowed (err e) = false

-- One more request, if the limit leaves room.
room :
    (n limit count : ℕ)
    → (if (if ltb limit (1 + count) then false else true)
        then 1 + min n (limit - (1 + count))
        else min n (limit - (1 + count)))
      ≡ min (1 + n) (limit - count)
room n limit count = ground arith

module _ {R : Type 0} (redis : Redis R) (limiter : RateLimiter) (k : String) where
  -- How many of the requests with the key are sent, and how many pass.
  unfoldable pub sent : List (Option String) → ℕ
  sent [] = 0
  sent (c ∷ cs) = let rest = sent cs in if str_eq (key limiter c) k then 1 + rest else rest

  unfoldable pub passed : List (Option String) → R → ℕ
  passed [] r = 0
  passed (c ∷ cs) r =
      let (answer, r') = call redis limiter c r in
      let rest = passed cs r' in
      if str_eq (key limiter c) k then (if is_allowed answer then 1 + rest else rest) else rest

  module _ (counter : String → R → ℕ) (law : IsCounter redis counter) where
    expire_keeps :
        (own : String) (current : ℕ) (r : R)
        → counter k (expire_if_first redis limiter own current r) ≡ counter k r
    unfolding expire_if_first
    expire_keeps own current r = elim (Bool-cases (current == 1)) [
      | inl e ↦ rw e (law.expired own k limiter.window_seconds r)
      | inr e ↦ rw e refl
    ]

    call_counts :
        (c : Option String) (r : R)
        → counter k (call redis limiter c r).1
          ≡ (if str_eq (key limiter c) k then 1 + counter k r else counter k r)
    unfolding call
    call_counts c r = elim (Bool-cases (str_eq (key limiter c) k)) [
      | inl e ↦ rw e (expire_keeps _ _ _ ∙ law.own (key limiter c) k r e)
      | inr e ↦ rw e (expire_keeps _ _ _ ∙ law.others (key limiter c) k r e)
    ]

    call_allows :
        (c : Option String) (r : R)
        → str_eq (key limiter c) k ≡ true
        → is_allowed (call redis limiter c r).0
          ≡ (if ltb limiter.limit (1 + counter k r) then false else true)
    unfolding call allowed is_allowed
    call_allows c r e =
        rw (law.counted, (eq_iff (key limiter c) k).0 e)
          (elim (Bool-cases (ltb limiter.limit (1 + counter k r))) [
            | inl t ↦ rw t refl
            | inr t ↦ rw t refl
          ])

    -- In a window, with a counter that Redis keeps as documented, the requests of one key that pass
    -- are as many as are sent, but never more than the limit leaves room for; the requests of other
    -- keys in between change nothing.
    pub passed_bounds :
        (clients : List (Option String)) (r : R)
        → passed clients r ≡ min (sent clients) (limiter.limit - counter k r)
    unfolding passed sent
    passed_bounds [] r = ground arith
    passed_bounds (c ∷ cs) r = elim (Bool-cases (str_eq (key limiter c) k)) [
      | inl e ↦
          rw (e, call_allows c r e, passed_bounds cs (call redis limiter c r).1, call_counts c r)
            (rw e (room (sent cs) limiter.limit (counter k r)))
      | inr e ↦ rw (e, passed_bounds cs (call redis limiter c r).1, call_counts c r) (rw e refl)
    ]
