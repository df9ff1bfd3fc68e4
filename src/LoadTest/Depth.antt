-- ===== src/LoadTest/Depth.antt =====
-- load/tts-load.js, queueDepth: reading the gauge from the text that the gateway exposes.
use bengali_tts_service.Base.{
  ℕ, zero, suc, ◌/◌, ◌≡◌, refl, true, false, none, some, List, [], ◌∷◌, ◌++◌, arith, All, length,
  drop, ltb, ◌==◌, Bool-cases, inl, inr, ap, ◌∙◌,
}
use mathlib.Core.List.{append_assoc}
use bengali_tts_service.Text.{JsString, js, starts_with}
use bengali_tts_service.Text.Decimal.{decimal, digits_onto, read-decimal}
use bengali_tts_service.Text.Laws.{starts_with-append}
use bengali_tts_service.LoadTest.{
  gauge, is_digit, is_line_end, leading_digits, match_here, first_match, depth_of, one_or_more,
}

abbrev IsDigits : JsString → Type 0
IsDigits = All (λ c. is_digit c ≡ true)

digits_onto-IsDigits : (f n : ℕ) (rest : JsString) → IsDigits rest → IsDigits (digits_onto f n rest)
unfolding digits_onto
digits_onto-IsDigits zero n rest h = h
digits_onto-IsDigits (suc f) n rest h = elim (Bool-cases (ltb n 10)) [
  | inl small ↦ rw small (ground arith, h)
  | inr large ↦ rw large (digits_onto-IsDigits f (n / 10) _ (ground arith, h))
]

decimal-IsDigits : (n : ℕ) → IsDigits (decimal n)
unfolding decimal
decimal-IsDigits n = digits_onto-IsDigits (suc n) n [] tt

-- A numeral is read to its end, which is the end of its line.
leading_digits_lem : (s rest : JsString) → IsDigits s → leading_digits (s ++ 10 ∷ rest) ≡ s
unfolding leading_digits
leading_digits_lem [] rest h = refl
leading_digits_lem (c ∷ s) rest (d, h) = rw (d, leading_digits_lem s rest h) refl

drop_append : (p s : JsString) → drop (length p) (p ++ s) ≡ s
drop_append [] s = refl
drop_append (a ∷ p) s = drop_append p s

digits_onto-nonempty :
    (f n c : ℕ) (rest : JsString)
    → one_or_more (digits_onto f n (c ∷ rest)) ≡ some (digits_onto f n (c ∷ rest))
unfolding digits_onto
digits_onto-nonempty zero n c rest = refl
digits_onto-nonempty (suc f) n c rest = elim (Bool-cases (ltb n 10)) [
  | inl small ↦ rw small refl
  | inr large ↦ rw large (digits_onto-nonempty f (n / 10) _ (c ∷ rest))
]

decimal-nonempty : (n : ℕ) → one_or_more (decimal n) ≡ some (decimal n)
unfolding decimal digits_onto
decimal-nonempty n = elim (Bool-cases (ltb n 10)) [
  | inl small ↦ rw small refl
  | inr large ↦ rw large (digits_onto-nonempty n (n / 10) _ [])
]

match_gauge :
    (n : ℕ) (rest : JsString) → match_here (gauge ++ (decimal n ++ 10 ∷ rest)) ≡ some (decimal n)
match_gauge n rest =
    rw
      (
        starts_with-append gauge (decimal n ++ 10 ∷ rest),
        drop_append gauge (decimal n ++ 10 ∷ rest),
        leading_digits_lem (decimal n) rest (decimal-IsDigits n),
      )
      (decimal-nonempty n)

-- A line, without the unit that ends it.
abbrev pub IsLine : JsString → Type 0
IsLine = All (λ c. is_line_end c ≡ false)

-- A line of the exposition that is not the gauge's.
abbrev pub IsOther : JsString → Type 0
IsOther l = IsLine l × (starts_with l gauge ≡ false)

starts_with-line :
    (l p s : JsString)
    → All (λ c. (10 == c) ≡ false) p
    → starts_with l p ≡ false
    → starts_with (l ++ 10 ∷ s) p ≡ false
unfolding starts_with
starts_with-line l [] s q h = cc
starts_with-line [] (c ∷ p) s (ne, q) h = rw ne refl
starts_with-line (a ∷ l) (c ∷ p) s (ne, q) h = elim (Bool-cases (a == c)) [
  | inl same ↦ rw same (starts_with-line l p s q (rw same at h))
  | inr differ ↦ rw differ refl
]

rest_of_line : (l s : JsString) → IsLine l → first_match false (l ++ 10 ∷ s) ≡ first_match true s
unfolding first_match
rest_of_line [] s h = refl
rest_of_line (c ∷ l) s (p, h) = rw p (rest_of_line l s h)

no_match : (l s : JsString) → starts_with l gauge ≡ false → match_here (l ++ 10 ∷ s) ≡ none
unfolding js
no_match l s h = rw (starts_with-line l gauge s (ground arith) h) refl

skip_line : (l s : JsString) → IsOther l → first_match true (l ++ 10 ∷ s) ≡ first_match true s
unfolding first_match
skip_line [] s (h, q) = rw (no_match [] s q) refl
skip_line (c ∷ l) s ((p, h), q) = rw (no_match (c ∷ l) s q, p) (rest_of_line l s h)

-- Lines, each with its end.
abbrev pub text_of : List JsString → JsString
text_of [] = []
text_of (l ∷ ls) = l ++ 10 ∷ text_of ls

skip_lines :
    (ls : List JsString) (s : JsString)
    → All IsOther ls
    → first_match true (text_of ls ++ s) ≡ first_match true s
skip_lines [] s h = refl
skip_lines (l ∷ ls) s (p, h) =
    rw (append_assoc l (10 ∷ text_of ls) s) (skip_line l (text_of ls ++ s) p ∙ skip_lines ls s h)

none_in : (ls : List JsString) → All IsOther ls → first_match true (text_of ls) ≡ none
unfolding first_match
none_in [] h = refl
none_in (l ∷ ls) (p, h) = skip_line l (text_of ls) p ∙ none_in ls h

match_first :
    (s numeral : JsString) → match_here s ≡ some numeral → first_match true s ≡ some numeral
unfolding first_match js starts_with
match_first [] numeral h = cc
match_first (c ∷ s) numeral h = rw h refl

first_gauge :
    (n : ℕ) (after : JsString)
    → first_match true (gauge ++ (decimal n ++ 10 ∷ after)) ≡ some (decimal n)
first_gauge n after =
    match_first (gauge ++ (decimal n ++ 10 ∷ after)) (decimal n) (match_gauge n after)

-- The depth of the queue is read back from an exposition that has the gauge on a line of its own:
-- it is the number of that line, whatever the lines before it are, if none of them begins like it,
-- and whatever follows.
pub depth_of-text_of :
    (before : List JsString) (n : ℕ) (after : JsString)
    → All IsOther before
    → depth_of (text_of before ++ (gauge ++ (decimal n ++ 10 ∷ after))) ≡ some n
unfolding depth_of
depth_of-text_of before n after h =
    rw (depth_of, skip_lines before (gauge ++ (decimal n ++ 10 ∷ after)) h, first_gauge n after)
      (ap some (read-decimal n))

-- No gauge, no depth: the drain takes that for an empty queue and ends.
depth_of-missing : (lines : List JsString) → All IsOther lines → depth_of (text_of lines) ≡ none
unfolding depth_of
depth_of-missing lines h = rw (depth_of, none_in lines h) refl
