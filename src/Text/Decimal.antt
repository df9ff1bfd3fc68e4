-- ===== src/Text/Decimal.antt =====
-- `String(n)` and `${n}` for a whole number, and reading it back.
use bengali_tts_service.Base.{
  ℕ, zero, suc, ◌+◌, ◌*◌, ◌/◌, ◌%◌, ◌-◌, ◌<◌, ◌≡◌, refl, [], ◌∷◌, arith, ltb, if◌then◌else◌,
  Bool-cases, inl, inr, ◌∙◌, ap, ltb→lt,
}
use bengali_tts_service.Text.{JsString}

-- The digits of `n`, the last one first taken off; the fuel bounds how many there are.
unfoldable pub digits_onto : ℕ → ℕ → JsString → JsString
digits_onto zero n rest = rest
digits_onto (suc f) n rest =
    let digit = 48 + n % 10 in
    let longer = digits_onto f (n / 10) (digit ∷ rest) in if ltb n 10 then digit ∷ rest else longer

unfoldable pub decimal : ℕ → JsString
unfolding digits_onto
decimal n = digits_onto (suc n) n []

-- Reading a numeral from the left.
unfoldable pub read_from : ℕ → JsString → ℕ
read_from acc [] = acc
read_from acc (c ∷ s) = read_from (acc * 10 + (c - 48)) s

read_from-digits_onto :
    (f n : ℕ) (rest : JsString) → n < f → read_from 0 (digits_onto f n rest) ≡ read_from n rest
unfolding read_from digits_onto
read_from-digits_onto zero n rest h = elim h [ ]
read_from-digits_onto (suc f) n rest h = elim (Bool-cases (ltb n 10)) [
  | inl small ↦ rw small (ap (λ k. read_from k rest) (omega (arith, ltb→lt n 10 small)))
  | inr large ↦
      rw large (
        read_from-digits_onto f (n / 10) _ (ground arith)
        ∙ ap (λ k. read_from k rest) (omega arith))
]

-- A number is read back from its decimal form.
pub read-decimal : (n : ℕ) → read_from 0 (decimal n) ≡ n
unfolding decimal read_from
read-decimal n = read_from-digits_onto (suc n) n [] (omega arith)

decimal_example : decimal 1050 ≡ 49 ∷ 48 ∷ 53 ∷ 48 ∷ []
unfolding decimal
decimal_example = refl
