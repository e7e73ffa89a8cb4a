-- ===== src/Exceptions/Handlers/Laws.antt =====
-- backend/app/core/exceptions.py: every error has an answer, and leaves one record.
use mathlib.Core.Path.{subst}
use pandahub.Prelude.{
  sym, ap, ◌∙◌, ◌⊎◌, ◌≢◌, List, ℕ, ◌≤◌, ◌≡◌, ◌↔◌, inl, inr, refl, true, false, none, some,
  Option-cases, String, [], ◌∷◌, arith, is_some, Bool-cases,
}
use pandahub.Exceptions.{
  Error, ValidationError, HttpStatus, HttpStatus.internal_error, http_status, is_app_error,
  status_code,
}
use pandahub.Exceptions.Log.{ErrorRecord, ErrorLog, record_error, get_error_log}
use pandahub.Exceptions.Handlers.{
  Response, respond, retry_header, handle_app_error, handle_unhandled_exception,
  handle_http_exception, handle_validation_error, http_of, validation_of, dispatch, handle,
}

status_code-bounds : (e : Error) → (400 ≤ status_code e) × (status_code e ≤ 503)
unfolding status_code http_status
status_code-bounds e = ground arith

-- What only the catch-all handler receives.
abbrev pub IsUnhandled : Error → Type 0
IsUnhandled e = (http_of e ≡ none) × (validation_of e ≡ none) × (is_app_error e ≡ false)

-- The exceptions that are answered with 500.
abbrev pub IsInternal : Error → Type 0
IsInternal e = IsUnhandled e ⊎ (http_of e ≡ some internal_error)

app_http : (e : Error) → is_app_error e ≡ true → http_of e ≡ none
unfolding is_app_error http_of
app_http e a = ground arith

http-bounds :
    (e : Error) (status : HttpStatus)
    → http_of e ≡ some status
    → (400 ≤ http_status status)
      × (http_status status ≤ 503)
      × ((http_status status ≡ 500) ↔ (status ≡ internal_error))
unfolding http_of http_status
http-bounds e status h = (ground arith, ground arith, (λ i. ground arith, λ i. ground arith))

app_not_internal : (e : Error) → is_app_error e ≡ true → status_code e ≢ 500
unfolding status_code is_app_error
app_not_internal e a s = ground arith

retried : (e : Error) → is_some (retry_header e) ≡ true → status_code e ≡ 429
unfolding status_code retry_header
retried e h = ground arith

-- What is recorded is the answer.
respond_lem :
    (id now : ℕ) (path : String) (r : Response) (log : ErrorLog)
    → (s : ErrorRecord) × (get_error_log 1 0 (respond id now path r log).1 ≡ s ∷ [])
      × (s.code ≡ r.code)
      × (s.status_code ≡ r.status)
      × (s.path ≡ path)
unfolding respond record_error get_error_log
respond_lem id now path r log = (
  record {
    id = id;
    code = r.code;
    path = path;
    severity = r.severity;
    status_code = r.status;
    timestamp = now;
  },
  refl,
  refl,
  refl,
  refl,
)

module _ (id now : ℕ) (path : String) (e : Error) (log : ErrorLog) where
  -- What holds of the answer of a handler and of the log it leaves.
  abbrev IsAnswer : Response × ErrorLog → Type 0
  IsAnswer (r, after) =
      (400 ≤ r.status)
      × (r.status ≤ 503)
      × ((r.status ≡ 500) ↔ IsInternal e)
      × (is_some r.retry_after ≡ true → r.status ≡ 429)
      × ((s : ErrorRecord) × (get_error_log 1 0 after ≡ s ∷ [])
          × (s.code ≡ r.code)
          × (s.status_code ≡ r.status)
          × (s.path ≡ path))

  app_error_lem : is_app_error e ≡ true → IsAnswer (handle_app_error id now path e log)
  unfolding handle_app_error respond
  app_error_lem a = (
    (status_code-bounds e).0,
    (status_code-bounds e).1,
    (
      λ h. absurd (app_not_internal e a h),
      λ i. elim i [ inl (n, w, f) ↦ cc (a, f) | inr h ↦ cc (app_http e a, h) ],
    ),
    retried e,
    respond_lem id now path (handle_app_error id now path e log).0 log,
  )

  unhandled_lem : IsUnhandled e → IsAnswer (handle_unhandled_exception id now path log)
  unfolding handle_unhandled_exception respond
  unhandled_lem u = (
    omega arith,
    omega arith,
    (λ s. inl u, λ b. refl),
    λ h. cc,
    respond_lem id now path (handle_unhandled_exception id now path log).0 log,
  )

  http_lem :
      (status : HttpStatus)
      → http_of e ≡ some status
      → IsAnswer (handle_http_exception id now path (http_status status) log)
  unfolding handle_http_exception respond
  http_lem status h =
      let (low, high, internal) = http-bounds e status h in
      (
        low,
        high,
        (
          λ q. inr (h ∙ ap some (internal.0 q)),
          λ i. elim i [ inl (n, w, f) ↦ cc (n, h) | inr k ↦ internal.1 (cc (h, k)) ],
        ),
        λ r. cc,
        respond_lem id now path (handle_http_exception id now path (http_status status) log).0 log,
      )

  validation_lem :
      (errors : List ValidationError)
      → validation_of e ≡ some errors
      → http_of e ≡ none
      → IsAnswer (handle_validation_error id now path errors log)
  unfolding handle_validation_error respond
  validation_lem errors w n = (
    omega arith,
    omega arith,
    (λ s. absurd (omega arith), λ i. elim i [ inl (m, u, f) ↦ cc (w, u) | inr k ↦ cc (n, k) ]),
    λ r. cc,
    respond_lem id now path (handle_validation_error id now path errors log).0 log,
  )

  handle-validation :
      (errors : List ValidationError)
      → http_of e ≡ none
      → validation_of e ≡ some errors
      → handle id now path e log ≡ handle_validation_error id now path errors log
  unfolding handle dispatch
  handle-validation errors n w = rw (n, w) refl

  handle-http :
      (status : HttpStatus)
      → http_of e ≡ some status
      → handle id now path e log ≡ handle_http_exception id now path (http_status status) log
  unfolding handle dispatch
  handle-http status h = rw h refl

  handle-app_error :
      http_of e ≡ none
      → validation_of e ≡ none
      → is_app_error e ≡ true
      → handle id now path e log ≡ handle_app_error id now path e log
  unfolding handle dispatch
  handle-app_error n w a = rw (n, w, a) refl

  handle-unhandled :
      IsUnhandled e → handle id now path e log ≡ handle_unhandled_exception id now path log
  unfolding handle dispatch
  handle-unhandled (n, w, a) = rw (n, w, a) refl

  -- Each modelled exception, which keeps the attributes of its class, is answered with a status from
  -- 400 to 503. It is 500 for those that are no HTTPException, no RequestValidationError and no
  -- AppError, and for an HTTPException that asks for it, and for no other. Only an answer 429 names a
  -- time to retry; and the newest record of the log is that of the answer.
  pub handle_lem :
      (400 ≤ (handle id now path e log).0.status)
      × ((handle id now path e log).0.status ≤ 503)
      × (((handle id now path e log).0.status ≡ 500) ↔ IsInternal e)
      × (is_some (handle id now path e log).0.retry_after ≡ true
          → (handle id now path e log).0.status ≡ 429)
      × ((s : ErrorRecord) × (get_error_log 1 0 (handle id now path e log).1 ≡ s ∷ [])
          × (s.code ≡ (handle id now path e log).0.code)
          × (s.status_code ≡ (handle id now path e log).0.status)
          × (s.path ≡ path))
  handle_lem = elim (Option-cases (http_of e)) [
    | inr (status, h) ↦ subst IsAnswer (sym (handle-http status h)) (http_lem status h)
    | inl n ↦ elim (Option-cases (validation_of e)) [
      | inr (errors, w) ↦
          subst IsAnswer (sym (handle-validation errors n w)) (validation_lem errors w n)
      | inl w ↦ elim (Bool-cases (is_app_error e)) [
        | inl a ↦ subst IsAnswer (sym (handle-app_error n w a)) (app_error_lem a)
        | inr a ↦ subst IsAnswer (sym (handle-unhandled (n, w, a))) (unhandled_lem (n, w, a))
      ]
    ]
  ]
