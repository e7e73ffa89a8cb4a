-- ===== src/Exceptions/Tests.antt =====
-- Runs of the error log.
use mathlib.Core.List.{reverse_aux}
use pandahub.Prelude.{◌≤◌, ◌≡◌, ◌↔◌, some, true, [], ◌∷◌, is_some, take, drop}
use pandahub.Exceptions.{Severity, Error, Error.rate_limit}
use pandahub.Exceptions.Log.{ErrorRecord, get_error_log}
use pandahub.Exceptions.Handlers.{handle}
use pandahub.Exceptions.Laws.{record_all, get_error_log-record_error}
use pandahub.Exceptions.Handlers.Laws.{IsInternal, handle_lem}

abbrev missing : ErrorRecord
missing = record {
  id = 1;
  code = "NOT_FOUND";
  path = "/x";
  severity = Severity.warning;
  status_code = 404;
  timestamp = 10;
}

abbrev crashed : ErrorRecord
crashed = record missing { id = 2; code = "INTERNAL_SERVER_ERROR"; status_code = 500 }

get_error_log-record_error_example :
    get_error_log 1 1 (record_all (missing ∷ crashed ∷ []) [])
    ≡ take 1 (drop 1 (take 500 (reverse_aux (missing ∷ crashed ∷ []) [])))
get_error_log-record_error_example = get_error_log-record_error (missing ∷ crashed ∷ []) 1 1

abbrev slow_down : Error
slow_down = rate_limit (some 30)

handle_lem_example :
    (400 ≤ (handle 3 20 "/y" slow_down []).0.status)
    × ((handle 3 20 "/y" slow_down []).0.status ≤ 503)
    × (((handle 3 20 "/y" slow_down []).0.status ≡ 500) ↔ IsInternal slow_down)
    × (is_some (handle 3 20 "/y" slow_down []).0.retry_after ≡ true
        → (handle 3 20 "/y" slow_down []).0.status ≡ 429)
    × ((r : ErrorRecord) × (get_error_log 1 0 (handle 3 20 "/y" slow_down []).1 ≡ r ∷ [])
        × (r.code ≡ (handle 3 20 "/y" slow_down []).0.code)
        × (r.status_code ≡ (handle 3 20 "/y" slow_down []).0.status)
        × (r.path ≡ "/y"))
handle_lem_example = handle_lem 3 20 "/y" slow_down []
