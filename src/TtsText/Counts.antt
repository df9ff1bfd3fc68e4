-- ===== src/TtsText/Counts.antt =====
-- The two counters of the ratio against independent counts of the code points.
use bengali_tts_service.Base.{
  ℕ, ◌+◌, ◌≤◌, ◌<◌, ◌≡◌, Bool, true, false, not, ◌&&◌, List, [], ◌∷◌, arith, ◌==◌, if◌then◌else◌,
  count_if, Bool-cases, inl, inr,
}
use bengali_tts_service.Text.{JsString, is_space, code_points, is_high_surrogate, is_low_surrogate}
use bengali_tts_service.Text.Laws.{IsBlank}
use bengali_tts_service.TtsText.{is_bengali, count_chars, bengali_ratio}

-- A code point that `/\s/` does not match.
abbrev pub is_visible : ℕ → Bool
is_visible c = not (is_space c)

-- No Bengali code point is white space.
bengali_visible : (c : ℕ) → is_bengali c ≡ true → is_space c ≡ false
unfolding is_space is_bengali
bengali_visible c h = ground arith

space-not-bengali : (c : ℕ) → is_space c ≡ true → is_bengali c ≡ false
space-not-bengali c h = elim (Bool-cases (is_bengali c)) [
  | inl b ↦ cc (bengali_visible c b)
  | inr b ↦ b
]

count_chars-eq-counts :
    (b t : ℕ) (cs : List ℕ)
    → count_chars b t cs ≡ (b + count_if is_bengali cs, t + count_if is_visible cs)
unfolding count_chars
count_chars-eq-counts b t [] = ground arith
count_chars-eq-counts b t (c ∷ cs) = elim (Bool-cases (is_space c)) [
  | inl p ↦ rw (p, count_chars-eq-counts b t cs) (ground (arith, space-not-bengali c))
  | inr p ↦
      rw p
        (rw (count_chars-eq-counts (if is_bengali c then b + 1 else b) (t + 1) cs) (ground arith))
]

-- A run of code points has at most as many Bengali ones as visible ones.
bengali-le-visible : (cs : List ℕ) → count_if is_bengali cs ≤ count_if is_visible cs
bengali-le-visible [] = omega arith
bengali-le-visible (c ∷ cs) = ground (arith, bengali-le-visible cs, space-not-bengali c)

-- A pair of surrogates is a code point past the white space.
space-lt : (c : ℕ) → is_space c ≡ true → c < 0x10000
unfolding is_space
space-lt c h = ground arith

no_visible_head :
    (c : ℕ) (cs : List ℕ)
    → count_if is_visible (c ∷ cs) ≡ 0
    → (is_space c ≡ true) × (count_if is_visible cs ≡ 0)
no_visible_head c cs h = ground arith

no_visible : (s : JsString) → count_if is_visible (code_points s) ≡ 0 → IsBlank s
unfolding code_points
no_visible [] h = tt
no_visible (a ∷ []) h = ground arith
no_visible (a ∷ b ∷ s) h = elim (Bool-cases (is_high_surrogate a && is_low_surrogate b)) [
  | inl pair ↦
      absurd (omega (arith, space-lt _ (no_visible_head _ (code_points s) (rw pair at h)).0))
  | inr single ↦
      let (p, q) = no_visible_head a (code_points (b ∷ s)) (rw single at h) in
      (p, no_visible (b ∷ s) q)
]

-- The loop's ratio is the count of Bengali code points over the count of visible ones, and zero
-- where none is visible.
pub bengali_ratio_lem :
    (text : JsString)
    → let cs = code_points text in
      bengali_ratio text ≡ (
        if count_if is_visible cs == 0
        then record { numerator = 0; denominator = 1 }
        else record { numerator = count_if is_bengali cs; denominator = count_if is_visible cs })
unfolding bengali_ratio
bengali_ratio_lem text = rw (count_chars-eq-counts 0 0 (code_points text)) (ground arith)

-- The ratio is a fraction between 0 and 1.
pub bengali_ratio_bounds :
    (text : JsString)
    → (0 < (bengali_ratio text).denominator)
      × ((bengali_ratio text).numerator ≤ (bengali_ratio text).denominator)
bengali_ratio_bounds text =
    rw (bengali_ratio_lem text) (ground (arith, bengali-le-visible (code_points text)))

-- Only white space is visible nowhere.
pub visible_pos : (s : JsString) → ¬ IsBlank s → 0 < count_if is_visible (code_points s)
visible_pos s h = elim (Bool-cases (count_if is_visible (code_points s) == 0)) [
  | inl e ↦ absurd (h (no_visible s (ground arith)))
  | inr e ↦ ground arith
]
