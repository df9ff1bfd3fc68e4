-- ===== src/Errors/Codes.antt =====
-- The codes of the refusals tell them apart.
use bengali_tts_service.Base.{◌≡◌, refl, sym, ap, ◌∙◌, ◌↔◌, List, [], ◌∷◌, if◌then◌else◌}
use bengali_tts_service.Text.{JsString, js, text_eq}
use bengali_tts_service.Errors.{
  DomainError, to_rendering, unauthenticated, missing_credentials, invalid_credentials,
  missing_api_key, invalid_api_key, revoked_api_key, email_taken, not_found, invalid_parameter,
  validation_failed, rate_limited, pending_cap_exceeded, queue_full, idempotency_conflict,
  job_failed, job_not_ready, text_empty, text_too_long, text_not_bengali,
}

-- `error._tag`, which the class of the error fixes.
unfoldable pub tag : DomainError → JsString
tag unauthenticated = js "Unauthenticated"
tag missing_credentials = js "MissingCredentials"
tag invalid_credentials = js "InvalidCredentials"
tag missing_api_key = js "MissingApiKey"
tag invalid_api_key = js "InvalidApiKey"
tag revoked_api_key = js "RevokedApiKey"
tag email_taken = js "EmailTaken"
tag not_found = js "NotFound"
tag (invalid_parameter _) = js "InvalidParameter"
tag (validation_failed _ _) = js "ValidationFailed"
tag (rate_limited _) = js "RateLimited"
tag pending_cap_exceeded = js "PendingCapExceeded"
tag queue_full = js "QueueFull"
tag idempotency_conflict = js "IdempotencyConflict"
tag job_failed = js "JobFailed"
tag job_not_ready = js "JobNotReady"
tag text_empty = js "TextEmpty"
tag (text_too_long _ _) = js "TextTooLong"
tag (text_not_bengali _ _) = js "TextNotBengali"

-- Tags beside codes, to look one up by the other.
abbrev rows : List (JsString × JsString)
rows =
    (js "Unauthenticated", js "UNAUTHENTICATED")
    ∷ (js "MissingCredentials", js "MISSING_CREDENTIALS")
    ∷ (js "InvalidCredentials", js "INVALID_CREDENTIALS")
    ∷ (js "MissingApiKey", js "MISSING_API_KEY")
    ∷ (js "InvalidApiKey", js "INVALID_API_KEY")
    ∷ (js "RevokedApiKey", js "REVOKED_API_KEY")
    ∷ (js "EmailTaken", js "EMAIL_TAKEN")
    ∷ (js "NotFound", js "NOT_FOUND")
    ∷ (js "InvalidParameter", js "INVALID_PARAMETER")
    ∷ (js "ValidationFailed", js "VALIDATION_ERROR")
    ∷ (js "RateLimited", js "RATE_LIMITED")
    ∷ (js "PendingCapExceeded", js "PENDING_CAP_EXCEEDED")
    ∷ (js "QueueFull", js "QUEUE_FULL")
    ∷ (js "IdempotencyConflict", js "IDEMPOTENCY_CONFLICT")
    ∷ (js "JobFailed", js "JOB_FAILED")
    ∷ (js "JobNotReady", js "JOB_NOT_READY")
    ∷ (js "TextEmpty", js "TEXT_EMPTY")
    ∷ (js "TextTooLong", js "TEXT_TOO_LONG")
    ∷ (js "TextNotBengali", js "TEXT_NOT_BENGALI")
    ∷ []

code_for : JsString → List (JsString × JsString) → JsString
code_for key [] = []
code_for key ((t, c) ∷ rest) = if text_eq t key then c else code_for key rest

tag_for : JsString → List (JsString × JsString) → JsString
tag_for key [] = []
tag_for key ((t, c) ∷ rest) = if text_eq c key then t else tag_for key rest

code_for-tag : (e : DomainError) → code_for (tag e) rows ≡ (to_rendering e).code
unfolding code_for tag to_rendering text_eq js
code_for-tag unauthenticated = refl
code_for-tag missing_credentials = refl
code_for-tag invalid_credentials = refl
code_for-tag missing_api_key = refl
code_for-tag invalid_api_key = refl
code_for-tag revoked_api_key = refl
code_for-tag email_taken = refl
code_for-tag not_found = refl
code_for-tag (invalid_parameter a) = refl
code_for-tag (validation_failed a b) = refl
code_for-tag (rate_limited a) = refl
code_for-tag pending_cap_exceeded = refl
code_for-tag queue_full = refl
code_for-tag idempotency_conflict = refl
code_for-tag job_failed = refl
code_for-tag job_not_ready = refl
code_for-tag text_empty = refl
code_for-tag (text_too_long a b) = refl
code_for-tag (text_not_bengali a b) = refl

tag_for-code : (e : DomainError) → tag_for (to_rendering e).code rows ≡ tag e
unfolding tag_for tag to_rendering text_eq js
tag_for-code unauthenticated = refl
tag_for-code missing_credentials = refl
tag_for-code invalid_credentials = refl
tag_for-code missing_api_key = refl
tag_for-code invalid_api_key = refl
tag_for-code revoked_api_key = refl
tag_for-code email_taken = refl
tag_for-code not_found = refl
tag_for-code (invalid_parameter a) = refl
tag_for-code (validation_failed a b) = refl
tag_for-code (rate_limited a) = refl
tag_for-code pending_cap_exceeded = refl
tag_for-code queue_full = refl
tag_for-code idempotency_conflict = refl
tag_for-code job_failed = refl
tag_for-code job_not_ready = refl
tag_for-code text_empty = refl
tag_for-code (text_too_long a b) = refl
tag_for-code (text_not_bengali a b) = refl

-- Two refusals are shown to the client under the same code exactly when they have the same tag.
code-eq_iff_tag :
    (e f : DomainError) → ((to_rendering e).code ≡ (to_rendering f).code) ↔ (tag e ≡ tag f)
code-eq_iff_tag e f = (
  λ h. sym (tag_for-code e) ∙ (ap (λ s. tag_for s rows) h ∙ tag_for-code f),
  λ h. sym (code_for-tag e) ∙ (ap (λ s. code_for s rows) h ∙ code_for-tag f),
)
