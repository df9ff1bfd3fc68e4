-- ===== src/TtsText.antt =====
-- gateway/src/lib/tts-text.ts: the rules for the text of a submission. The ratio is an exact
-- fraction here; a double's comparison with 0.5 agrees with it while the counts stay below 2^53.
pub mod Counts
pub mod Verdict
use bengali_tts_service.Base.{
  ℕ, zero, suc, ◌+◌, ◌*◌, Bool, ◌&&◌, List, [], ◌∷◌, ltb, leb, ◌==◌, if◌then◌else◌, length,
}
use bengali_tts_service.Text.{JsString, is_space, trim, code_points}
use bengali_tts_service.Errors.{
  Ratio, DomainError, text_empty, text_too_long, text_not_bengali, Exit, succeed, fail, domain,
}

abbrev bengali_block_start : ℕ
bengali_block_start = 0x0980

abbrev bengali_block_end : ℕ
bengali_block_end = 0x09ff

abbrev pub min_bengali_ratio : Ratio
min_bengali_ratio = record { numerator = 1; denominator = 2 }

unfoldable pub is_bengali : ℕ → Bool
is_bengali c = leb bengali_block_start c && leb c bengali_block_end

-- The loop of `bengaliRatio`, on its two counters: (bengali, total).
unfoldable pub count_chars : ℕ → ℕ → List ℕ → ℕ × ℕ
count_chars bengali total [] = (bengali, total)
count_chars bengali total (c ∷ cs) =
    count_chars (if is_space c then bengali else if is_bengali c then bengali + 1 else bengali)
      (if is_space c then total else total + 1) cs

unfoldable pub bengali_ratio : JsString → Ratio
unfolding count_chars
bengali_ratio text =
    let (bengali, total) = count_chars 0 0 (code_points text) in
    if total == 0
    then record { numerator = 0; denominator = 1 }
    else record { numerator = bengali; denominator = total }

-- `a < b`, where neither denominator is zero.
abbrev pub below : Ratio → Ratio → Bool
below a b = ltb (a.numerator * b.denominator) (b.numerator * a.denominator)

unfoldable pub validate_tts_text : JsString → ℕ → Exit (Unit {0})
validate_tts_text text max_length =
    if length (trim text) == 0
    then fail (domain text_empty)
    else if ltb max_length (length (code_points text))
    then fail (domain (text_too_long max_length (length (code_points text))))
    else if below (bengali_ratio text) min_bengali_ratio
    then fail (domain (text_not_bengali (bengali_ratio text) min_bengali_ratio))
    else succeed tt
