-- ===== src/Text/Laws.antt =====
-- Laws of the string operations of the gateway.
use bengali_tts_service.Base.{
  ℕ, some, ◌≤◌, ◌≡◌, refl, ◌≢◌, ◌↔◌, true, false, [], ◌∷◌, ◌++◌, arith, ◌&&◌, length, All,
  Bool-cases, inl, inr,
}
use bengali_tts_service.Text.{
  JsString, text_eq, starts_with, is_space, index_of, trim_start, trim_end, trim, code_points,
  is_high_surrogate, is_low_surrogate,
}

pub text_eq_sound : (s t : JsString) → text_eq s t ≡ true → s ≡ t
unfolding text_eq
text_eq_sound [] [] h = refl
text_eq_sound [] (b ∷ t) h = cc
text_eq_sound (a ∷ s) [] h = cc
text_eq_sound (a ∷ s) (b ∷ t) h = ground (arith, text_eq_sound s t)

pub text_eq_refl : (s : JsString) → text_eq s s ≡ true
unfolding text_eq
text_eq_refl [] = refl
text_eq_refl (a ∷ s) = ground (arith, text_eq_refl s)

pub text_eq_iff : (s t : JsString) → (text_eq s t ≡ true) ↔ (s ≡ t)
text_eq_iff s t = (text_eq_sound s t, λ e. rw e (text_eq_refl t))

pub text_eq_ne : (s t : JsString) → s ≢ t → text_eq s t ≡ false
text_eq_ne s t h = elim (Bool-cases (text_eq s t)) [
  | inl same ↦ absurd (h (text_eq_sound s t same))
  | inr other ↦ other
]

pub starts_with-append : (p s : JsString) → starts_with (p ++ s) p ≡ true
unfolding starts_with
starts_with-append [] [] = refl
starts_with-append [] (c ∷ s) = refl
starts_with-append (a ∷ p) s = ground (arith, starts_with-append p s)

-- A string of white space and line terminators only.
abbrev pub IsBlank : JsString → Type 0
IsBlank = All (λ c. is_space c ≡ true)

trim_end_of_IsBlank : (s : JsString) → IsBlank s → trim_end s ≡ []
unfolding trim_end
trim_end_of_IsBlank [] h = refl
trim_end_of_IsBlank (c ∷ s) (p, h) = rw (trim_end_of_IsBlank s h) (rw p refl)

IsBlank-of_trim_end : (s : JsString) → trim_end s ≡ [] → IsBlank s
unfolding trim_end
IsBlank-of_trim_end [] h = tt
IsBlank-of_trim_end (c ∷ s) h = ground (arith, IsBlank-of_trim_end s)

trim_start_of_IsBlank : (s : JsString) → IsBlank s → trim_start s ≡ []
unfolding trim_start
trim_start_of_IsBlank [] h = refl
trim_start_of_IsBlank (c ∷ s) (p, h) = rw p (trim_start_of_IsBlank s h)

IsBlank-of_trim_start : (s : JsString) → IsBlank (trim_start s) → IsBlank s
unfolding trim_start
IsBlank-of_trim_start [] h = tt
IsBlank-of_trim_start (c ∷ s) h = elim (Bool-cases (is_space c)) [
  | inl p ↦ (p, IsBlank-of_trim_start s (rw p at h))
  | inr p ↦ rw p at h
]

-- `s.trim()` is empty exactly for the blank strings.
pub trim-eq-nil_iff : (s : JsString) → (trim s ≡ []) ↔ IsBlank s
unfolding trim trim_end
trim-eq-nil_iff s = (
  λ h. IsBlank-of_trim_start s (IsBlank-of_trim_end (trim_start s) h),
  λ h. rw (trim_start_of_IsBlank s h),
)

-- A string has at most as many code points as units.
pub length-code_points-le : (s : JsString) → length (code_points s) ≤ length s
unfolding code_points
length-code_points-le [] = omega arith
length-code_points-le (a ∷ []) = omega arith
length-code_points-le (a ∷ b ∷ s) = elim (Bool-cases (is_high_surrogate a && is_low_surrogate b)) [
  | inl pair ↦ rw pair (omega (arith, length-code_points-le s))
  | inr single ↦ rw single (omega (arith, length-code_points-le (b ∷ s)))
]

-- A string without white space.
abbrev pub IsSolid : JsString → Type 0
IsSolid = All (λ c. is_space c ≡ false)

trim_start_of_IsSolid : (s : JsString) → IsSolid s → trim_start s ≡ s
unfolding trim_start
trim_start_of_IsSolid [] h = refl
trim_start_of_IsSolid (c ∷ s) (p, h) = rw p refl

trim_end_of_IsSolid : (s : JsString) → IsSolid s → trim_end s ≡ s
unfolding trim_end
trim_end_of_IsSolid [] h = refl
trim_end_of_IsSolid (c ∷ []) (p, h) = rw p refl
trim_end_of_IsSolid (c ∷ d ∷ s) (p, h) = rw (trim_end_of_IsSolid (d ∷ s) h) refl

pub trim_of_IsSolid : (s : JsString) → IsSolid s → trim s ≡ s
unfolding trim
trim_of_IsSolid s h = rw (trim_start_of_IsSolid s h) (trim_end_of_IsSolid s h)

-- The first occurrence of a unit behind a string that does not have it.
pub index_of-append :
    (c : ℕ) (s t : JsString) → All (λ d. d ≢ c) s → index_of c (s ++ c ∷ t) ≡ some (length s)
unfolding index_of
index_of-append c [] t h = ground arith
index_of-append c (d ∷ s) t (ne, h) = ground (arith, index_of-append c s t h, ne)
