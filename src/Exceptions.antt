-- ===== src/Exceptions.antt =====
-- backend/app/core/exceptions.py: the error classes, their attributes and the handlers.
-- An error is its class; the texts of messages and hints are not modelled. `http` is an
-- HTTPException with one of the statuses that the code or FastAPI's routing gives it,
-- `request_validation` FastAPI's RequestValidationError. The last four constructors are for the
-- catch-all handler: SQLAlchemy's IntegrityError and MultipleResultsFound, pygit2's errors, and every
-- other exception of Python, such as ValueError, KeyError, AttributeError and OSError.
pub mod Log
pub mod Laws
mod Tests
pub mod Handlers
use pandahub.Prelude.{
  ℕ, ◌⊎◌, inl, inr, ◌≡◌, refl, Option, none, some, Bool, true, false, String, List, str, concat,
}

pub data Severity : Type 0 where
  debug info warning error critical : Severity

-- The statuses of the HTTPExceptions.
pub data HttpStatus : Type 0 where
  malformed unauthenticated forbidden missing method_not_allowed taken : HttpStatus
  unsupported_media_type unprocessable too_many_requests internal_error unavailable : HttpStatus

unfoldable pub http_status : HttpStatus → ℕ
http_status malformed = 400
http_status unauthenticated = 401
http_status forbidden = 403
http_status missing = 404
http_status method_not_allowed = 405
http_status taken = 409
http_status unsupported_media_type = 415
http_status unprocessable = 422
http_status too_many_requests = 429
http_status internal_error = 500
http_status unavailable = 503

-- An entry of RequestValidationError.errors(): where, in the segments of `loc`, and what.
pub record ValidationError : Type 0 where
  pub loc : List String
  pub msg : String

pub data Error : Type 0 where
  app_error bad_request not_found conflict permission_denied unauthorized : Error
  rate_limit : (retry_after : Option ℕ) → Error
  service_unavailable git_operation validation_detail : Error
  http : (status : HttpStatus) → Error
  request_validation : (errors : List ValidationError) → Error
  integrity multiple_results other_exception git_library : Error

pub data Result {ℓ} (A : Type ℓ) : Type ℓ where
  ok : A → Result A
  err : Error → Result A

-- To split on an outcome and keep the equation.
pub Result-cases :
    {A : Type 0} (outcome : Result A)
    → ((value : A) × (outcome ≡ ok value)) ⊎ ((raised : Error) × (outcome ≡ err raised))
Result-cases (ok value) = inl (value, refl)
Result-cases (err raised) = inr (raised, refl)

module _ {A B : Type 0} where
  infixl 10 ◌>>=◌
  abbrev pub ◌>>=◌ : Result A → (A → Result B) → Result B
  ok a >>= f = f a
  err e >>= f = err e

  -- A chain that succeeds has a first link that does, whose value the rest takes.
  pub chain_inversion :
      (first : Result A) (rest : A → Result B) {result : B}
      → first >>= rest ≡ ok result
      → (value : A) × (first ≡ ok value) × (rest value ≡ ok result)
  chain_inversion first rest h = elim (Result-cases first) [
    | inl (value, e) ↦ (value, e, rw e at h)
    | inr (raised, e) ↦ cc
  ]

-- isinstance(e, AppError)
unfoldable pub is_app_error : Error → Bool
is_app_error integrity = false
is_app_error multiple_results = false
is_app_error other_exception = false
is_app_error git_library = false
is_app_error (http _) = false
is_app_error (request_validation _) = false
is_app_error _ = true

unfoldable pub status_code : Error → ℕ
status_code app_error = 400
status_code bad_request = 400
status_code not_found = 404
status_code conflict = 409
status_code permission_denied = 403
status_code unauthorized = 401
status_code (rate_limit _) = 429
status_code service_unavailable = 503
status_code git_operation = 422
status_code validation_detail = 422
status_code (http status) = http_status status
status_code (request_validation _) = 422
status_code integrity = 500
status_code multiple_results = 500
status_code other_exception = 500
status_code git_library = 500

unfoldable pub code : Error → String
code app_error = "APP_ERROR"
code bad_request = "BAD_REQUEST"
code not_found = "NOT_FOUND"
code conflict = "CONFLICT"
code permission_denied = "PERMISSION_DENIED"
code unauthorized = "UNAUTHORIZED"
code (rate_limit _) = "RATE_LIMITED"
code service_unavailable = "SERVICE_UNAVAILABLE"
code git_operation = "GIT_ERROR"
code validation_detail = "VALIDATION_ERROR"
code (http status) = concat "HTTP_" (str (http_status status))
code (request_validation _) = "VALIDATION_ERROR"
code integrity = "INTERNAL_SERVER_ERROR"
code multiple_results = "INTERNAL_SERVER_ERROR"
code other_exception = "INTERNAL_SERVER_ERROR"
code git_library = "INTERNAL_SERVER_ERROR"

unfoldable pub severity : Error → Severity
severity app_error = error
severity service_unavailable = error
severity git_operation = error
severity integrity = critical
severity multiple_results = critical
severity other_exception = critical
severity git_library = critical
severity (http internal_error) = error
severity (http unavailable) = error
severity _ = warning
