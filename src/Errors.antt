-- ===== src/Errors.antt =====
-- gateway/src/lib/errors.ts and gateway/src/lib/run-effect.ts: the refusals, what a handler can
-- throw, and the one place where a thrown value becomes an answer.
pub mod Codes
pub mod Answers
use bengali_tts_service.Base.{
  ℕ, String, ◌==◌, ◌≡◌, refl, ◌⊎◌, inl, inr, Bool, Option, none, some, List, [], ◌∷◌, ◌++◌,
  if◌then◌else◌,
}
use bengali_tts_service.Text.{JsString, js}
use bengali_tts_service.Text.Decimal.{decimal}

-- An exact quotient, in place of the double that the gateway computes.
pub record Ratio : Type 0 where
  pub numerator : ℕ
  pub denominator : ℕ

pub record Issue : Type 0 where
  pub path : JsString
  pub message : JsString

pub data DomainError : Type 0 where
  unauthenticated missing_credentials invalid_credentials : DomainError
  missing_api_key invalid_api_key revoked_api_key : DomainError
  email_taken not_found : DomainError
  invalid_parameter : JsString → DomainError
  validation_failed : JsString → Option (List Issue) → DomainError
  rate_limited : ℕ → DomainError
  pending_cap_exceeded queue_full idempotency_conflict job_failed job_not_ready : DomainError
  text_empty : DomainError
  text_too_long : ℕ → ℕ → DomainError
  text_not_bengali : Ratio → Ratio → DomainError

-- Everything that a handler can throw. `prisma_known_request` carries the client's error code,
-- `storage_unavailable` the HTTP status of its cause, if it has one, and `syntax_error` the status
-- that the body parser puts on it.
pub data Thrown : Type 0 where
  domain : DomainError → Thrown
  prisma_known_request : JsString → Thrown
  storage_unavailable : JsString → Option ℕ → Thrown
  queue_unavailable : JsString → Thrown
  syntax_error : Option ℕ → Thrown
  other : JsString → Thrown

pub data Details : Type 0 where
  issues : List Issue → Details
  lengths : ℕ → ℕ → Details

pub record Rendering : Type 0 where
  pub status : ℕ
  pub code : JsString
  pub message : JsString
  pub details : Option Details

abbrev plain : ℕ → String → String → Rendering
plain status code message = record {
  status = status;
  code = js code;
  message = js message;
  details = none;
}

abbrev issues_of : Option (List Issue) → Option Details
issues_of none = none
issues_of (some l) = some (issues l)

-- The table of renderers and its lookup by tag.
unfoldable pub to_rendering : DomainError → Rendering
to_rendering unauthenticated = plain 401 "UNAUTHENTICATED" "Authentication required"
to_rendering missing_credentials =
    plain 401 "MISSING_CREDENTIALS" "Provide email and password via Basic auth"
to_rendering invalid_credentials = plain 401 "INVALID_CREDENTIALS" "Email or password is incorrect"
to_rendering missing_api_key = plain 401 "MISSING_API_KEY" "Provide an API key via Bearer auth"
to_rendering invalid_api_key = plain 401 "INVALID_API_KEY" "API key is not recognized"
to_rendering revoked_api_key = plain 401 "REVOKED_API_KEY" "API key has been revoked"
to_rendering email_taken = plain 409 "EMAIL_TAKEN" "A user with this email already exists"
to_rendering not_found = plain 404 "NOT_FOUND" "Resource not found"
to_rendering (invalid_parameter name) = record {
  status = 400;
  code = js "INVALID_PARAMETER";
  message = js "Missing or invalid path parameter: " ++ name;
  details = none;
}
to_rendering (validation_failed message details) = record {
  status = 422;
  code = js "VALIDATION_ERROR";
  message = message;
  details = issues_of details;
}
to_rendering (rate_limited _) = plain 429 "RATE_LIMITED" "Request rate limit exceeded; retry later"
to_rendering pending_cap_exceeded =
    plain 429 "PENDING_CAP_EXCEEDED"
      "Too many unfinished jobs; wait for them to complete instead of retrying"
to_rendering queue_full = plain 503 "QUEUE_FULL" "Service is at capacity; retry later"
to_rendering idempotency_conflict =
    plain 409 "IDEMPOTENCY_CONFLICT"
      "This Idempotency-Key was already used with different input text"
to_rendering job_failed = plain 409 "JOB_FAILED" "Job failed; no audio was produced"
to_rendering job_not_ready = plain 409 "JOB_NOT_READY" "Job has not completed yet; keep polling"
to_rendering text_empty = plain 422 "TEXT_EMPTY" "Text must not be empty"
to_rendering (text_too_long max_length actual_length) = record {
  status = 422;
  code = js "TEXT_TOO_LONG";
  message = js "Text exceeds the maximum length of " ++ (decimal max_length ++ js " characters");
  details = some (lengths max_length actual_length);
}
to_rendering (text_not_bengali _ _) =
    plain 422 "TEXT_NOT_BENGALI"
      "Text must be predominantly Bengali (at least half of non-whitespace characters)"

-- The type guard: the error at its narrowed type, if it is one of the table's.
unfoldable pub is_domain_error : Thrown → Option DomainError
is_domain_error (domain e) = some e
is_domain_error _ = none

-- What reaches the client, and what is put aside for the log (`res.locals.internalError`).
pub record Answer : Type 0 where
  pub status : ℕ
  pub headers : List (JsString × JsString)
  pub code : JsString
  pub message : JsString
  pub details : Option Details
  pub internal_error : Option Thrown

abbrev send_error : ℕ → JsString → JsString → Option Details → Answer
send_error status code message details = record {
  status = status;
  headers = [];
  code = code;
  message = message;
  details = details;
  internal_error = none;
}

unfoldable pub not_found_handler : Answer
not_found_handler = send_error 404 (js "NOT_FOUND") (js "Resource not found") none

abbrev retry_after : DomainError → List (JsString × JsString)
retry_after (rate_limited seconds) = (js "Retry-After", decimal seconds) ∷ []
retry_after _ = []

abbrev answer_refusal : DomainError → Answer
answer_refusal e =
    let r = to_rendering e in
    record (send_error r.status r.code r.message r.details) { headers = retry_after e }

abbrev answer_internal : Thrown → Answer
answer_internal err = record (send_error 500 (js "INTERNAL") (js "Internal server error") none) {
  internal_error = some err;
}

abbrev is_400 : Option ℕ → Bool
is_400 none = Bool.false
is_400 (some status) = status == 400

abbrev answer_fault : Thrown → Answer
answer_fault (syntax_error status) =
    if is_400 status
    then send_error 400 (js "MALFORMED_JSON") (js "Request body is not valid JSON") none
    else answer_internal (syntax_error status)
answer_fault err = answer_internal err

unfoldable pub error_handler : Thrown → Answer
unfolding is_domain_error to_rendering
error_handler err = elim (is_domain_error err) [
  | some e ↦ answer_refusal e
  | none ↦ answer_fault err
]

-- The result of asynchronous code: a value, or what was thrown.
pub data Result {ℓ} (A : Type ℓ) : Type ℓ where
  ok : A → Result A
  thrown : Thrown → Result A

-- How an Effect ends: with a value, with a failure of its error type, or with a defect.
pub data Exit {ℓ} (A : Type ℓ) : Type ℓ where
  succeed : A → Exit A
  fail : Thrown → Exit A
  die : Thrown → Exit A

unfoldable pub run_effect {ℓ} : {A : Type ℓ} → Exit A → Result A
run_effect (succeed a) = ok a
run_effect (fail e) = thrown e
run_effect (die e) = thrown e

pub Result-cases {ℓ} :
    {A : Type ℓ} (r : Result A) → ((a : A) × (r ≡ ok a)) ⊎ ((t : Thrown) × (r ≡ thrown t))
Result-cases (ok a) = inl (a, refl)
Result-cases (thrown t) = inr (t, refl)
