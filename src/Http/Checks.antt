-- ===== src/Http/Checks.antt =====
-- What the checks of a request let through.
use bengali_tts_service.Base.{◌≡◌, refl, ◌≢◌, ◌↔◌, Option, none, some, List, [], ◌∷◌, map}
use bengali_tts_service.Text.{JsString, js}
use bengali_tts_service.Errors.{ok, thrown, domain, invalid_parameter, validation_failed}
use bengali_tts_service.Http.{
  Loose, one, several, Parsed, success, failure, ZodIssue, issue_of, validate, require_param,
}

module _ {ℓ κ} {V : Type ℓ} {T : Type κ} (schema : V → Parsed T) (v : V) where
  pub validate_success : {t : T} → schema v ≡ success t → validate schema v ≡ ok t
  unfolding validate
  validate_success h = rw (h, validate)

  pub validate_failure :
      {l : List ZodIssue}
      → schema v ≡ failure l
      → validate schema v
        ≡ thrown
            (domain (validation_failed (js "Request validation failed") (some (map issue_of l))))
  unfolding validate
  validate_failure h = rw (h, validate)

-- A path parameter is let through exactly as the one string that it is, where that is not empty;
-- and a parameter that is anything else is refused under its name.
require_param_lem :
    (param : Option Loose) (name : JsString)
    → ((s : JsString) → (require_param param name ≡ ok s) ↔ ((param ≡ some (one s)) × (s ≢ [])))
      × (((s : JsString) → param ≡ some (one s) → s ≡ [])
          → require_param param name ≡ thrown (domain (invalid_parameter name)))
unfolding require_param
require_param_lem none name = ((λ s. (λ h. cc, λ (e, n). cc)), λ h. refl)
require_param_lem (some (several l)) name = ((λ s. (λ h. cc, λ (e, n). cc)), λ h. refl)
require_param_lem (some (one [])) name =
    ((λ s. (λ h. cc, λ (e, n). absurd (n (empty_of s e)))), λ h. refl)
  where
    empty_of : (s : JsString) → some (one []) ≡ some (one s) → s ≡ []
    empty_of s e = cc
require_param_lem (some (one (c ∷ s))) name =
    ((λ t. (λ h. (cc, λ e. cc), λ (e, n). cc)), λ h. absurd (cons_ne (h (c ∷ s) refl)))
  where
    cons_ne : ¬ (c ∷ s ≡ [])
    cons_ne e = cc
