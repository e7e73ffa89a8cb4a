-- ===== src/RateLimit/Tests.antt =====
-- A Redis that keeps its counters in a function, and four requests for a password reset.
use text.Mathlib.Text.{◌==◌ as str_eq}
use pandahub.Prelude.{
  ℕ, ◌+◌, ◌-◌, ◌≡◌, refl, Option, some, String, List, [], ◌∷◌, min, if◌then◌else◌,
}
use pandahub.RateLimit.{
  Redis, client_ip, key, expire_if_first, allowed, call, password_reset_rate_limiter,
}
use pandahub.RateLimit.Laws.{IsCounter, is_allowed, sent, passed, passed_bounds}

abbrev redis : Redis (String → ℕ)
redis = record {
  incr = λ k r. (1 + r k, λ other. if str_eq k other then 1 + r other else r other);
  expire = λ k seconds r. r;
}

abbrev counter : String → (String → ℕ) → ℕ
counter k r = r k

counts : IsCounter redis counter
counts = record {
  counted = λ k r. refl;
  own = λ k other r e. rw e refl;
  others = λ k other r e. rw e refl;
  expired = λ k other seconds r. refl;
}

abbrev clients : List (Option String)
clients =
    some "10.0.0.1" ∷ some "10.0.0.1" ∷ some "10.0.0.2" ∷ some "10.0.0.1" ∷ some "10.0.0.1" ∷ []

passed_bounds_example :
    passed redis password_reset_rate_limiter "ratelimit:pwreset:10.0.0.1" clients (λ k. 0)
    ≡ min (sent redis password_reset_rate_limiter "ratelimit:pwreset:10.0.0.1" clients) (3 - 0)
passed_bounds_example =
    passed_bounds redis password_reset_rate_limiter "ratelimit:pwreset:10.0.0.1" counter counts
      clients (λ k. 0)

-- Four are sent, and three pass.
three_pass :
    (sent redis password_reset_rate_limiter "ratelimit:pwreset:10.0.0.1" clients ≡ 4)
    × (passed redis password_reset_rate_limiter "ratelimit:pwreset:10.0.0.1" clients (λ k. 0) ≡ 3)
unfolding sent passed is_allowed call allowed expire_if_first key client_ip
three_pass = (refl, refl)
