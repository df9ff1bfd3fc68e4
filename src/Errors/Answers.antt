-- ===== src/Errors/Answers.antt =====
-- What a client can see of a thrown value.
use bengali_tts_service.Base.{
  ℕ, ◌≤◌, ◌<◌, ◌≡◌, refl, sym, ◌∙◌, ◌≢◌, ◌⊎◌, ◌↔◌, ap, if◌then◌else◌, Option, none, some, List, [],
  ◌∷◌, arith,
}
use bengali_tts_service.Text.{js, JsString, text_eq}
use bengali_tts_service.Text.Decimal.{read_from, read-decimal}
use bengali_tts_service.Errors.{
  Answer, DomainError, Thrown, Exit, ok, succeed, fail, die, domain, rate_limited, is_domain_error,
  error_handler, run_effect, syntax_error,
}

-- Every refusal is answered by a status from 400 to 499 or by 503, so never by 500, and puts
-- nothing aside.
error_handler_refusal :
    (e : DomainError)
    → let a = error_handler (domain e) in
      (400 ≤ a.status) × ((a.status < 500) ⊎ (a.status ≡ 503)) × (a.internal_error ≡ none)
unfolding error_handler
error_handler_refusal DomainError.unauthenticated = ground arith
error_handler_refusal e = ground arith

syntax_400 : (k : ℕ) → syntax_error (some k) ≢ syntax_error (some 400) → k ≢ 400
syntax_400 k n e = n (ap (λ i. syntax_error (some i)) e)

internal_answer :
    (t : Thrown)
    → is_domain_error t ≡ none
    → t ≢ syntax_error (some 400)
    → error_handler t ≡ record {
      status = 500;
      headers = [];
      code = js "INTERNAL";
      message = js "Internal server error";
      details = none;
      internal_error = some t;
    }
unfolding error_handler
internal_answer (domain e) h n = cc
internal_answer (syntax_error (some k)) h n = ground (arith, syntax_400 k n)
internal_answer t h n = refl

-- What reaches the client of an answer.
abbrev pub shown : Answer → Answer
shown a = record a { internal_error = none }

-- Two thrown values that are no refusals and no syntax errors of status 400 look alike to the client,
-- who sees a 500, and each is put aside for the log.
pub error_handler_fault :
    (t u : Thrown)
    → is_domain_error t ≡ none
    → t ≢ syntax_error (some 400)
    → is_domain_error u ≡ none
    → u ≢ syntax_error (some 400)
    → (shown (error_handler t) ≡ shown (error_handler u))
      × ((error_handler t).status ≡ 500)
      × ((error_handler t).internal_error ≡ some t)
error_handler_fault t u p q r s =
    let e = internal_answer t p q in
    (
      ap shown e ∙ sym (ap shown (internal_answer u r s)),
      ap (λ (a : Answer). a.status) e,
      ap (λ (a : Answer). a.internal_error) e,
    )

-- The seconds that a client reads from the headers.
abbrev pub seconds_of : List (JsString × JsString) → Option ℕ
seconds_of [] = none
seconds_of ((name, value) ∷ rest) =
    if text_eq name (js "Retry-After") then some (read_from 0 value) else seconds_of rest

-- The seconds that a refusal asks the client to wait: a rate limit does, nothing else.
abbrev pub wait_of : DomainError → Option ℕ
wait_of (rate_limited seconds) = some seconds
wait_of _ = none

-- A client that reads Retry-After gets the seconds of the rate limit, and of no other refusal.
seconds_of-error_handler :
    (e : DomainError) → seconds_of (error_handler (domain e)).headers ≡ wait_of e
unfolding error_handler text_eq js
seconds_of-error_handler (rate_limited s) = ap some (read-decimal s)
seconds_of-error_handler _ = refl

-- An Effect's failure and its defect are thrown as they are, and a value is returned.
pub run_effect_returns {ℓ} :
    {A : Type ℓ} (x : Exit A) (a : A) → (run_effect x ≡ ok a) ↔ (x ≡ succeed a)
unfolding run_effect
run_effect_returns (succeed b) a = (λ h. ground arith, λ h. ground arith)
run_effect_returns (fail e) a = (λ h. cc, λ h. cc)
run_effect_returns (die e) a = (λ h. cc, λ h. cc)
