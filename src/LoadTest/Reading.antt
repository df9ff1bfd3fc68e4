-- ===== src/LoadTest/Reading.antt =====
-- load/tts-load.js, queueDepth: the pattern, and the number that it finds.
use bengali_tts_service.Base.{
  ℕ, Bool, true, false, ◌&&◌, ◌||◌, Option, none, some, [], ◌∷◌, length, drop, leb, ltb, ◌==◌,
  if◌then◌else◌,
}
use bengali_tts_service.Text.{JsString, js, starts_with}
use bengali_tts_service.Text.Decimal.{read_from}

-- `/^tts_queue_depth (\d+)/m`: the numeral that follows at the beginning of a line.
abbrev pub gauge : JsString
gauge = js "tts_queue_depth "

abbrev pub is_digit : ℕ → Bool
is_digit c = leb 48 c && leb c 57

unfoldable pub leading_digits : JsString → JsString
leading_digits [] = []
leading_digits (c ∷ s) = let rest = leading_digits s in if is_digit c then c ∷ rest else []

abbrev pub one_or_more : JsString → Option JsString
one_or_more [] = none
one_or_more (c ∷ s) = some (c ∷ s)

abbrev pub match_here : JsString → Option JsString
match_here s =
    if starts_with s gauge then one_or_more (leading_digits (drop (length gauge) s)) else none

-- What ends a line for `^` in a pattern of several lines.
abbrev pub is_line_end : ℕ → Bool
is_line_end c = c == 10 || c == 13 || c == 0x2028 || c == 0x2029

abbrev pub or_else : Option JsString → Option JsString → Option JsString
or_else none later = later
or_else (some found) later = some found

unfoldable pub first_match : Bool → JsString → Option JsString
first_match at_start [] = none
first_match at_start (c ∷ s) =
    let later = first_match (is_line_end c) s in
    if at_start then or_else (match_here (c ∷ s)) later else later

-- `match ? Number(match[1]) : NaN`, where `none` is NaN.
unfoldable pub depth_of : JsString → Option ℕ
depth_of body = elim (first_match true body) [
  | none ↦ none
  | some numeral ↦ some (read_from 0 numeral)
]

-- `depth > 0`, which does not hold of NaN.
abbrev pub is_positive : Option ℕ → Bool
is_positive none = false
is_positive (some n) = ltb 0 n
