-- ===== src/Text.antt =====
-- The strings of the gateway: sequences of UTF-16 code units, with the operations of the
-- language that the gateway calls on them.
pub mod Laws
pub mod Decimal
use Prim.Native.Char.{code}
use bengali_tts_service.Base.{
  ℕ, suc, ◌+◌, ◌-◌, ◌*◌, String, Bool, true, false, ◌&&◌, ◌||◌, Option, none, some, List, [], ◌∷◌,
  leb, ◌==◌, if◌then◌else◌,
}

abbrev pub JsString : Type 0
JsString = List ℕ

-- A literal of the source. Those in the gateway are ASCII, so that a unit is a code point.
unfoldable pub js : String → JsString
js String.[] = []
js (String.◌∷◌ c s) = code c ∷ js s

-- `===`
unfoldable pub text_eq : JsString → JsString → Bool
text_eq [] [] = true
text_eq (a ∷ s) (b ∷ t) = a == b && text_eq s t
text_eq _ _ = false

-- `s.startsWith(prefix)`
unfoldable pub starts_with : JsString → JsString → Bool
starts_with s [] = true
starts_with [] (p ∷ prefix) = false
starts_with (a ∷ s) (p ∷ prefix) = a == p && starts_with s prefix

-- `/\s/` of the language: white space and line terminators. All lie in the basic plane.
unfoldable pub is_space : ℕ → Bool
is_space c =
    (leb 9 c && leb c 13)
    || c == 32
    || c == 0xa0
    || c == 0x1680
    || (leb 0x2000 c && leb c 0x200a)
    || c == 0x2028
    || c == 0x2029
    || c == 0x202f
    || c == 0x205f
    || c == 0x3000
    || c == 0xfeff

unfoldable pub trim_start : JsString → JsString
unfolding is_space
trim_start [] = []
trim_start (c ∷ s) = let rest = trim_start s in if is_space c then rest else c ∷ s

-- A unit is put in front of what is left of the rest, unless it is white space before nothing.
abbrev cons_trimmed : ℕ → JsString → JsString
cons_trimmed c [] = if is_space c then [] else c ∷ []
cons_trimmed c (d ∷ s) = c ∷ d ∷ s

unfoldable pub trim_end : JsString → JsString
unfolding is_space
trim_end [] = []
trim_end (c ∷ s) = cons_trimmed c (trim_end s)

-- `s.trim()`
unfoldable pub trim : JsString → JsString
unfolding trim_start trim_end
trim s = trim_end (trim_start s)

abbrev pub is_high_surrogate : ℕ → Bool
is_high_surrogate c = leb 0xd800 c && leb c 0xdbff

abbrev pub is_low_surrogate : ℕ → Bool
is_low_surrogate c = leb 0xdc00 c && leb c 0xdfff

-- `for (const char of s)` and `[...s]`: a surrogate pair is one code point, and a surrogate that
-- has no partner stands for itself.
unfoldable pub code_points : JsString → List ℕ
code_points [] = []
code_points (a ∷ []) = a ∷ []
code_points (a ∷ b ∷ s) =
    let pair = (0x10000 + (a - 0xd800) * 0x400 + (b - 0xdc00)) ∷ code_points s in
    let single = a ∷ code_points (b ∷ s) in
    if is_high_surrogate a && is_low_surrogate b then pair else single

-- `s.indexOf(':')` and its like, for one unit: `none` is -1.
unfoldable pub index_of : ℕ → JsString → Option ℕ
index_of c [] = none
index_of c (d ∷ s) =
    if d == c then some 0 else elim (index_of c s) [ none ↦ none | some i ↦ some (suc i) ]
