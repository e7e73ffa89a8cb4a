-- ===== src/RateLimit.antt =====
-- backend/app/core/rate_limit.py: the limiter of the routes for logins, registrations and password
-- resets. Redis is a parameter; the seconds to wait, which it answers too, are in the text only.
pub mod Laws
mod Tests
use pandahub.Prelude.{ℕ, Option, none, some, String, concat, ltb, ◌==◌, if◌then◌else◌}
use pandahub.Exceptions.{Error.http, HttpStatus.too_many_requests, Result, ok, err}

pub record RateLimiter : Type 0 where
  pub key_prefix : String
  pub limit : ℕ
  pub window_seconds : ℕ

-- The calls of Redis over its state R.
pub record Redis (R : Type 0) : Type 0 where
  -- INCR: the counter after it, which starts at 0
  pub incr : (key : String) → R → ℕ × R
  -- EXPIRE: the key will be gone after the seconds
  pub expire : (key : String) → (seconds : ℕ) → R → R

-- request.client.host if request.client else "unknown"
unfoldable pub client_ip : Option String → String
client_ip none = "unknown"
client_ip (some host) = host

unfoldable pub key : RateLimiter → (client : Option String) → String
key limiter client = concat "ratelimit:" (concat limiter.key_prefix (concat ":" (client_ip client)))

module _ {R : Type 0} (redis : Redis R) (limiter : RateLimiter) where
  unfoldable pub expire_if_first : (key : String) → (current : ℕ) → R → R
  expire_if_first key current r =
      if current == 1 then redis.expire key limiter.window_seconds r else r

  -- if current > self.limit
  unfoldable pub allowed : (current : ℕ) → Result (Unit {0})
  allowed current = if ltb limiter.limit current then err (http too_many_requests) else ok tt

  unfoldable pub call : (client : Option String) → R → Result (Unit {0}) × R
  call client r =
      let (current, counted) = redis.incr (key limiter client) r in
      (allowed current, expire_if_first (key limiter client) current counted)

-- The instances for the routes.
abbrev pub login_rate_limiter : RateLimiter
login_rate_limiter = record { key_prefix = "login"; limit = 10; window_seconds = 60 }

abbrev pub register_rate_limiter : RateLimiter
register_rate_limiter = record { key_prefix = "register"; limit = 5; window_seconds = 300 }

abbrev pub password_reset_rate_limiter : RateLimiter
password_reset_rate_limiter = record { key_prefix = "pwreset"; limit = 3; window_seconds = 300 }
