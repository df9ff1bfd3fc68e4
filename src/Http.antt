-- ===== src/Http.antt =====
-- gateway/src/lib/validate.ts: a request's loosely typed parts are checked before they are used.
pub mod Checks
use bengali_tts_service.Base.{Bool, Option, none, some, List, [], ◌∷◌, ◌++◌, map}
use bengali_tts_service.Text.{JsString, js}
use bengali_tts_service.Errors.{
  Result, ok, thrown, domain, invalid_parameter, validation_failed, Issue,
}

-- A header, a path parameter or a part of a query: one string, or a value of another kind.
pub data Loose : Type 0 where
  one : JsString → Loose
  several : List JsString → Loose

-- What the schema library reports of a value that does not conform.
pub record ZodIssue : Type 0 where
  pub path : List JsString
  pub message : JsString

pub data Parsed {ℓ} (T : Type ℓ) : Type ℓ where
  success : T → Parsed T
  failure : List ZodIssue → Parsed T

-- `path.join('.')`
unfoldable pub join_dots : List JsString → JsString
join_dots [] = []
join_dots (p ∷ []) = p
join_dots (p ∷ q ∷ rest) = p ++ (js "." ++ join_dots (q ∷ rest))

abbrev issue_of : ZodIssue → Issue
issue_of i = record { path = join_dots i.path; message = i.message }

-- A schema is what the schema library makes of it, a function from values to parses.
unfoldable pub validate {ℓ κ} : {V : Type ℓ} {T : Type κ} → (V → Parsed T) → V → Result T
validate schema body = elim (schema body) [
  | success t ↦ ok t
  | failure l ↦
      thrown (domain (validation_failed (js "Request validation failed") (some (map issue_of l))))
]

-- The parameter's value, and the name that a refusal reports.
unfoldable pub require_param : Option Loose → JsString → Result JsString
require_param (some (one [])) name = thrown (domain (invalid_parameter name))
require_param (some (one (c ∷ s))) name = ok (c ∷ s)
require_param _ name = thrown (domain (invalid_parameter name))
