-- ===== src/Parser/Number/Decimal/Notation.antt =====
-- Decimal notation, and which bounds `parseDecimalNumber` of
-- buf/validate/internal/lib/parser_common.h is used with.
use native.Mathlib.Nat.{pow-suc, mul-le-mul_right}
use protovalidate_cc.Base.{
  ℕ, ◌+◌, ◌*◌, ◌^◌, ◌≤◌, ◌<◌, ◌≡◌, ◌≢◌, Option, some, [], ◌∷◌, ◌++◌, arith, Bytes, length,
  Option-cases, inl, inr,
}
use protovalidate_cc.Parser.Number.Loop.{digits_value, Ends}
use protovalidate_cc.Parser.Number.{calculate_decimal_digits, decimal_digit_value}

abbrev pub decimal_value : ℕ → Bytes → Option ℕ
decimal_value = digits_value 10 decimal_digit_value

-- The text is the decimal notation of the number: digits, and no zero in front of another digit.
abbrev pub IsDecimal : ℕ → Bytes → Type 0
IsDecimal v [] = ⊥
IsDecimal v (c ∷ []) = decimal_digit_value c ≡ some v
IsDecimal v (c ∷ d ∷ text) =
    (decimal_digit_value c ≢ some 0) × (decimal_value 0 (c ∷ d ∷ text) ≡ some v)

pub decimal_digit_small : (c d : ℕ) → decimal_digit_value c ≡ some d → d < 10
unfolding decimal_digit_value
decimal_digit_small c d h = ground arith

-- A text read behind `acc` counts `acc` once for each power of ten.
pub decimal_value-ge :
    (text : Bytes) (acc : ℕ) {v : ℕ} → decimal_value acc text ≡ some v → acc * 10 ^ length text ≤ v
unfolding digits_value
decimal_value-ge [] acc h = ground arith
decimal_value-ge (c ∷ cs) acc h = elim (Option-cases (decimal_digit_value c)) [
  | inl stop ↦ absurd (ground arith)
  | inr (d, found) ↦
      let ih = decimal_value-ge cs (acc * 10 + d) (rw (found, digits_value) at h) in
      rw pow-suc (omega (arith, ih, mul-le-mul_right (10 ^ length cs) (le d)))
]
  where
    le : (d : ℕ) → acc * 10 ≤ acc * 10 + d
    le d = omega arith

-- Values for the template argument `maxValue`: the digit count bounds it, and the `unsigned`
-- accumulator has room for one digit more.
pub record IsMax (max_value : ℕ) : Type 0 where
  pub few : calculate_decimal_digits max_value ≤ 8
  pub some_digit : 1 ≤ calculate_decimal_digits max_value
  pub below : max_value < 10 ^ calculate_decimal_digits max_value

pub two_values :
    (c d e x : ℕ) (text : Bytes)
    → decimal_digit_value c ≡ some d
    → decimal_digit_value e ≡ some x
    → decimal_value 0 (c ∷ e ∷ text) ≡ decimal_value (d * 10 + x) text
unfolding digits_value
two_values c d e x text found found' = ground arith

-- `s` starts with a decimal number up to `max_value`, and no digit follows it.
pub record StartsDecimal (max_value : ℕ) (s : Bytes) (v : ℕ) (rest : Bytes) : Type 0 where
  pub text : Bytes
  pub splits : s ≡ text ++ rest
  pub decimal : IsDecimal v text
  pub bounded : v ≤ max_value
  pub ends : Ends decimal_digit_value rest
