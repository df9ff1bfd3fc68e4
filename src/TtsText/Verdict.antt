-- ===== src/TtsText/Verdict.antt =====
-- Which texts are accepted, and which rule rejects each of the others.
use bengali_tts_service.Base.{
  ℕ, ◌*◌, ◌≤◌, ◌<◌, ◌≡◌, refl, ◌↔◌, true, false, [], ◌∷◌, arith, length, count_if, Bool-cases, inl,
  inr, ◌==◌, lt→ltb, le→ltb, ==→eq, ap,
}
use native.Mathlib.Decide.{dec_lt}
use bengali_tts_service.Text.{JsString, code_points, trim}
use bengali_tts_service.Text.Laws.{IsBlank, trim-eq-nil_iff}
use bengali_tts_service.Errors.{
  Exit, text_empty, text_too_long, text_not_bengali, fail, succeed, domain,
}
use bengali_tts_service.TtsText.{is_bengali, bengali_ratio, min_bengali_ratio, validate_tts_text}
use bengali_tts_service.TtsText.Counts.{is_visible, bengali_ratio_lem, visible_pos}

-- What the rules ask of a text: it is not blank, it has at most `max` code points, and at least
-- half of the visible ones are Bengali.
pub record IsSpeakable (max : ℕ) (text : JsString) : Type 0 where
  pub not_blank : ¬ IsBlank text
  pub short : length (code_points text) ≤ max
  pub dominant : count_if is_visible (code_points text) ≤ 2 * count_if is_bengali (code_points text)

length_zero : (s : JsString) → (length s == 0) ≡ true → s ≡ []
length_zero [] h = refl
length_zero (c ∷ s) h = absurd (omega (arith, ==→eq _ _ h))

IsBlank-test : (text : JsString) → (length (trim text) == 0) ≡ true → IsBlank text
IsBlank-test text h = (trim-eq-nil_iff text).0 (length_zero (trim text) h)

not-IsBlank_test : (text : JsString) → (length (trim text) == 0) ≡ false → ¬ IsBlank text
not-IsBlank_test text h b = cc (ap (λ s. length s == 0) ((trim-eq-nil_iff text).1 b), h)

-- The ratio of a text that is not blank, without the special case.
ratio_of_visible :
    (text : JsString)
    → ¬ IsBlank text
    → bengali_ratio text ≡ record {
      numerator = count_if is_bengali (code_points text);
      denominator = count_if is_visible (code_points text);
    }
ratio_of_visible text h = rw (bengali_ratio_lem text) (ground (arith, visible_pos text h))

-- A visible text with too few Bengali code points.
abbrev pub IsForeign : JsString → Type 0
IsForeign text = 2 * count_if is_bengali (code_points text) < count_if is_visible (code_points text)

-- The failure for a foreign text, with its exact ratio.
abbrev pub foreign : JsString → Exit (Unit {0})
foreign text = fail (
    domain (
      text_not_bengali
        (record {
          numerator = count_if is_bengali (code_points text);
          denominator = count_if is_visible (code_points text);
        })
        min_bengali_ratio))

abbrev pub too_long : JsString → ℕ → Exit (Unit {0})
too_long text max = fail (domain (text_too_long max (length (code_points text))))

validate_blank :
    (text : JsString) (max : ℕ)
    → IsBlank text
    → validate_tts_text text max ≡ fail (domain text_empty)
unfolding validate_tts_text
validate_blank text max b = rw ((trim-eq-nil_iff text).1 b)

module _ (text : JsString) (max : ℕ) (visible : ¬ IsBlank text) where
  trimmed : (length (trim text) == 0) ≡ false
  trimmed = elim (Bool-cases (length (trim text) == 0)) [
    | inl e ↦ absurd (visible (IsBlank-test text e))
    | inr e ↦ e
  ]

  validate_long : max < length (code_points text) → validate_tts_text text max ≡ too_long text max
  unfolding validate_tts_text
  validate_long h = rw (trimmed, lt→ltb _ _ h)

  validate_foreign :
      length (code_points text) ≤ max → IsForeign text → validate_tts_text text max ≡ foreign text
  unfolding validate_tts_text
  validate_foreign h f =
      rw (trimmed, le→ltb _ _ h) (rw (ratio_of_visible text visible) (ground arith))

  validate_speakable :
      length (code_points text) ≤ max
      → count_if is_visible (code_points text) ≤ 2 * count_if is_bengali (code_points text)
      → validate_tts_text text max ≡ succeed tt
  unfolding validate_tts_text
  validate_speakable h f =
      rw (trimmed, le→ltb _ _ h) (rw (ratio_of_visible text visible) (ground arith))

-- The four kinds of text, each with the verdict on it.
data Kind (text : JsString) (max : ℕ) (verdict : Exit (Unit {0})) : Type 0 where
  blank : IsBlank text → verdict ≡ fail (domain text_empty) → Kind text max verdict
  long :
      ¬ IsBlank text
      → max < length (code_points text)
      → verdict ≡ too_long text max
      → Kind text max verdict
  mixed :
      ¬ IsBlank text
      → length (code_points text) ≤ max
      → IsForeign text
      → verdict ≡ foreign text
      → Kind text max verdict
  speakable : IsSpeakable max text → verdict ≡ succeed tt → Kind text max verdict

Kind-of_visible :
    (text : JsString) (max : ℕ) → ¬ IsBlank text → Kind text max (validate_tts_text text max)
Kind-of_visible text max n = elim (dec_lt max (length (code_points text))) [
  | yes h ↦ long n h (validate_long text max n h)
  | no h ↦
      elim (dec_lt (2 * count_if is_bengali (code_points text))
        (count_if is_visible (code_points text))) [
          | yes f ↦ mixed n (omega arith) f (validate_foreign text max n (omega arith) f)
          | no f ↦
              speakable (record { not_blank = n; short = omega arith; dominant = omega arith })
                (validate_speakable text max n (omega arith) (omega arith))
        ]
]

kind : (text : JsString) (max : ℕ) → Kind text max (validate_tts_text text max)
kind text max = elim (Bool-cases (length (trim text) == 0)) [
  | inl e ↦ blank (IsBlank-test text e) (validate_blank text max (IsBlank-test text e))
  | inr e ↦ Kind-of_visible text max (not-IsBlank_test text e)
]

module _ {text : JsString} {max : ℕ} {v : Exit (Unit {0})} where
  succeed_iff : Kind text max v → (v ≡ succeed tt) ↔ IsSpeakable max text
  succeed_iff (blank b e) = (λ h. cc, λ s. absurd (s.not_blank b))
  succeed_iff (long n h e) = (λ k. cc, λ s. absurd (omega (arith, s.short)))
  succeed_iff (mixed n h f e) = (λ k. cc, λ s. absurd (omega (arith, s.dominant)))
  succeed_iff (speakable s e) = (λ k. s, λ k. e)

  empty_iff : Kind text max v → (v ≡ fail (domain text_empty)) ↔ IsBlank text
  empty_iff (blank b e) = (λ h. b, λ s. e)
  empty_iff (long n h e) = (λ k. cc, λ s. absurd (n s))
  empty_iff (mixed n h f e) = (λ k. cc, λ s. absurd (n s))
  empty_iff (speakable s e) = (λ k. cc, λ k. absurd (s.not_blank k))

  too_long_iff :
      Kind text max v
      → (v ≡ too_long text max) ↔ ((¬ IsBlank text) × (max < length (code_points text)))
  too_long_iff (blank b e) = (λ h. cc, λ s. absurd (s.0 b))
  too_long_iff (long n h e) = (λ k. (n, h), λ s. e)
  too_long_iff (mixed n h f e) = (λ k. cc, λ s. absurd (omega arith))
  too_long_iff (speakable s e) = (λ k. cc, λ k. absurd (omega (arith, s.short)))

  foreign_iff :
      Kind text max v
      → (v ≡ foreign text) ↔ ((¬ IsBlank text) × (length (code_points text) ≤ max) × IsForeign text)
  foreign_iff (blank b e) = (λ h. cc, λ s. absurd (s.0 b))
  foreign_iff (long n h e) = (λ k. cc, λ s. absurd (omega arith))
  foreign_iff (mixed n h f e) = (λ k. (n, h, f), λ s. e)
  foreign_iff (speakable s e) = (λ k. cc, λ k. absurd (omega (arith, s.dominant)))

-- A text is accepted exactly when it is speakable: not blank, at most `max` code points, and at
-- least half of the visible ones in the Bengali block.
pub validate_tts_text_accepts :
    (text : JsString) (max : ℕ) → (validate_tts_text text max ≡ succeed tt) ↔ IsSpeakable max text
validate_tts_text_accepts text max = succeed_iff (kind text max)

-- A text is rejected as empty exactly when it is blank, as too long (with both lengths) exactly
-- when it is not blank and has more than `max` code points, and as not Bengali (with its exact
-- ratio) exactly when it is neither and fewer than half of its visible code points are Bengali.
pub validate_tts_text_rejects :
    (text : JsString) (max : ℕ)
    → ((validate_tts_text text max ≡ fail (domain text_empty)) ↔ IsBlank text)
      × ((validate_tts_text text max ≡ too_long text max)
          ↔ ((¬ IsBlank text) × (max < length (code_points text))))
      × ((validate_tts_text text max ≡ foreign text)
          ↔ ((¬ IsBlank text) × (length (code_points text) ≤ max) × IsForeign text))
validate_tts_text_rejects text max =
    (empty_iff (kind text max), too_long_iff (kind text max), foreign_iff (kind text max))
