-- ===== src/Exceptions/Handlers.antt =====
-- backend/app/core/exceptions.py: the exception handlers.
pub mod Laws
use text.Mathlib.Text.{◌==◌ as str_eq}
use pandahub.Prelude.{
  ℕ, zero, suc, Option, none, some, Bool, true, false, not, String, List, [], ◌∷◌, map, ltb,
  if◌then◌else◌, str, concat,
}
use pandahub.Exceptions.{
  Severity, warning, error, critical, HttpStatus, http_status, Error, Error.rate_limit, Error.http,
  Error.request_validation, ValidationError, is_app_error, status_code, code, severity,
}
use pandahub.Exceptions.Log.{ErrorLog, record_error}

pub record FieldError : Type 0 where
  pub field : String
  pub message : String

pub record Response : Type 0 where
  pub status : ℕ
  pub code : String
  pub severity : Severity
  pub fields : List FieldError
  pub retry_after : Option ℕ

-- The call of `_record_error` that every handler makes, and its JSONResponse.
unfoldable pub respond : (id now : ℕ) → (path : String) → Response → ErrorLog → Response × ErrorLog
respond id now path r log = (
  r,
  record_error
      (record {
        id = id;
        code = r.code;
        path = path;
        severity = r.severity;
        status_code = r.status;
        timestamp = now;
      })
      log,
)

-- `if isinstance(exc, RateLimitError) and exc.retry_after`: zero seconds count as absent.
unfoldable pub retry_header : Error → Option ℕ
retry_header (rate_limit (some (suc seconds))) = some (suc seconds)
retry_header _ = none

unfoldable pub handle_app_error :
    (id now : ℕ) → (path : String) → Error → ErrorLog → Response × ErrorLog
handle_app_error id now path e log =
    respond id now path
      (record {
        status = status_code e;
        code = code e;
        severity = severity e;
        fields = [];
        retry_after = retry_header e;
      })
      log

-- [str(p) for p in loc if p != "body"]
unfoldable pub field_parts : List String → List String
field_parts [] = []
field_parts (p ∷ loc) = if str_eq p "body" then field_parts loc else p ∷ field_parts loc

-- ".".join(parts)
unfoldable pub join_dots : List String → String
join_dots [] = ""
join_dots (p ∷ []) = p
join_dots (p ∷ q ∷ parts) = concat p (concat "." (join_dots (q ∷ parts)))

unfoldable pub field_name : List String → String
field_name [] = "request"
field_name (p ∷ parts) = join_dots (p ∷ parts)

unfoldable pub field_error : ValidationError → FieldError
field_error e = record { field = field_name (field_parts e.loc); message = e.msg }

unfoldable pub handle_validation_error :
    (id now : ℕ) → (path : String) → List ValidationError → ErrorLog → Response × ErrorLog
handle_validation_error id now path errors log =
    respond id now path
      (record {
        status = 422;
        code = "VALIDATION_ERROR";
        severity = warning;
        fields = map field_error errors;
        retry_after = none;
      })
      log

unfoldable pub handle_http_exception :
    (id now : ℕ) → (path : String) → (status : ℕ) → ErrorLog → Response × ErrorLog
handle_http_exception id now path status log =
    respond id now path
      (record {
        status = status;
        code = concat "HTTP_" (str status);
        severity = if ltb status 500 then warning else error;
        fields = [];
        retry_after = none;
      })
      log

unfoldable pub handle_unhandled_exception :
    (id now : ℕ) → (path : String) → ErrorLog → Response × ErrorLog
handle_unhandled_exception id now path log =
    respond id now path
      (record {
        status = 500;
        code = "INTERNAL_SERVER_ERROR";
        severity = critical;
        fields = [];
        retry_after = none;
      })
      log

-- isinstance(exc, HTTPException)
unfoldable pub http_of : Error → Option HttpStatus
http_of (http status) = some status
http_of _ = none

-- isinstance(exc, RequestValidationError)
unfoldable pub validation_of : Error → Option (List ValidationError)
validation_of (request_validation errors) = some errors
validation_of _ = none

-- FastAPI picks the handler by the class of the exception.
unfoldable pub dispatch :
    Option HttpStatus
    → Option (List ValidationError)
    → (id now : ℕ) → (path : String) → Error
    → ErrorLog
    → Response × ErrorLog
dispatch (some status) validation id now path e log =
    handle_http_exception id now path (http_status status) log
dispatch none (some errors) id now path e log = handle_validation_error id now path errors log
dispatch none none id now path e log =
    if is_app_error e
    then handle_app_error id now path e log
    else handle_unhandled_exception id now path log

unfoldable pub handle : (id now : ℕ) → (path : String) → Error → ErrorLog → Response × ErrorLog
handle id now path e log = dispatch (http_of e) (validation_of e) id now path e log
