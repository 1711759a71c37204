-- ===== src/Parser/Number.antt =====
-- Decimal and hexadecimal numbers of buf/validate/internal/lib/parser_common.h.
pub mod Loop
pub mod Decimal
pub mod Hexadecimal
use protovalidate_cc.Base.{
  ℕ, zero, suc, ◌+◌, ◌-◌, ◌*◌, ◌/◌, ◌%◌, ◌^◌, max, Bool, true, false, ◌||◌, Option, none, some, [],
  ◌∷◌, ◌==◌, ltb, leb, within, if◌then◌else◌, Bytes,
}

-- `unsigned` arithmetic wraps at 2 ^ 32.
abbrev pub unsigned : ℕ → ℕ
unsigned n = n % 2 ^ 32

-- The loop divides the value by 10, or shifts it by 4, until it is 0: below 2 ^ 32 it ends
-- within ten rounds, or eight.
digits_loop : ℕ → ℕ → ℕ → ℕ → ℕ
digits_loop zero base value i = i
digits_loop (suc fuel) base value i =
    let rest = digits_loop fuel base (value / base) (i + 1) in if value == 0 then i else rest

unfoldable pub calculate_decimal_digits : ℕ → ℕ
unfolding digits_loop
calculate_decimal_digits value = max 1 (digits_loop 32 10 value 0)

unfoldable pub calculate_hexadecimal_digits : ℕ → ℕ
unfolding digits_loop
calculate_hexadecimal_digits value = max 1 (digits_loop 32 16 value 0)

unfoldable pub decimal_digit_value : ℕ → Option ℕ
decimal_digit_value c = if within b'0' b'9' c then some (c - b'0') else none

unfoldable pub hexadecimal_digit_value : ℕ → Option ℕ
hexadecimal_digit_value c =
    if within b'0' b'9' c
    then some (c - b'0')
    else if within b'a' b'f' c
    then some (c - b'a' + 10)
    else if within b'A' b'F' c
    then some (c - b'A' + 10)
    else none

-- `i`, `value` and the view from `str[i]` on
pub record Scan : Type 0 where
  pub i : ℕ
  pub value : ℕ
  pub rest : Bytes

-- The digit loop, which runs while
-- `i <= maxDigits && str.length() > i && digitValue(str[i], digitValue)`.
unfoldable pub number_loop : ℕ → (ℕ → Option ℕ) → ℕ → ℕ → ℕ → Bytes → Scan
number_loop base digit max_digits i value [] = record { i = i; value = value; rest = [] }
number_loop base digit max_digits i value (c ∷ cs) = elim (leb i max_digits) [
  | false ↦ record { i = i; value = value; rest = c ∷ cs }
  | true ↦ elim (digit c) [
    | none ↦ record { i = i; value = value; rest = c ∷ cs }
    | some d ↦ number_loop base digit max_digits (i + 1) (unsigned (unsigned (value * base) + d)) cs
  ]
]

-- `value *= 10U; value += digitValue`
abbrev pub decimal_loop : ℕ → ℕ → ℕ → Bytes → Scan
decimal_loop = number_loop 10 decimal_digit_value

-- `value <<= 4U; value += digitValue`
abbrev pub hexadecimal_loop : ℕ → ℕ → ℕ → Bytes → Scan
hexadecimal_loop = number_loop 16 hexadecimal_digit_value

-- the range check; `value <= maxValue` makes the cast to the output type exact
unfoldable pub in_range : ℕ → ℕ → Scan → Option (ℕ × Bytes)
in_range max_digits max_value s =
    if ltb max_digits s.i || ltb max_value s.value then none else some (s.value, s.rest)

-- behind the first digit `d`
unfoldable pub decimal_tail : ℕ → ℕ → Bytes → Option (ℕ × Bytes)
unfolding in_range number_loop decimal_digit_value calculate_decimal_digits
decimal_tail max_value d [] =
    in_range (calculate_decimal_digits max_value) max_value (record { i = 1; value = d; rest = [] })
decimal_tail max_value d (c ∷ cs) = elim (decimal_digit_value c) [
  | none ↦
      in_range (calculate_decimal_digits max_value) max_value
        (record { i = 1; value = d; rest = c ∷ cs })
  | some e ↦
      if d == 0
      then none
      else in_range (calculate_decimal_digits max_value) max_value (
          decimal_loop (calculate_decimal_digits max_value) 2 (unsigned (unsigned (d * 10) + e)) cs)
]

-- `parseDecimalNumber`: the value and the view behind it; `none` leaves the view alone
unfoldable pub parse_decimal_number : ℕ → Bytes → Option (ℕ × Bytes)
unfolding decimal_tail
parse_decimal_number max_value [] = none
parse_decimal_number max_value (c ∷ cs) = elim (decimal_digit_value c) [
  | none ↦ none
  | some d ↦ decimal_tail max_value d cs
]

-- the range checks, and that there are enough digits
unfoldable pub enough_digits : ℕ → ℕ → ℕ → Scan → Option (ℕ × Bytes)
unfolding in_range
enough_digits max_digits max_value min_digits s = elim (in_range max_digits max_value s) [
  | none ↦ none
  | some r ↦ if ltb s.i min_digits then none else some r
]

-- `parseHexadecimalNumber`
unfoldable pub parse_hexadecimal_number : ℕ → ℕ → Bytes → Option (ℕ × Bytes)
unfolding enough_digits number_loop hexadecimal_digit_value calculate_hexadecimal_digits
parse_hexadecimal_number max_value min_digits [] = none
parse_hexadecimal_number max_value min_digits (c ∷ cs) = elim (hexadecimal_digit_value c) [
  | none ↦ none
  | some d ↦
      let max_digits = calculate_hexadecimal_digits max_value in
      enough_digits max_digits max_value min_digits (hexadecimal_loop max_digits 1 d cs)
]

unfoldable pub parse_decimal_octet : Bytes → Option (ℕ × Bytes)
unfolding parse_decimal_number
parse_decimal_octet = parse_decimal_number 255

unfoldable pub parse_hexadecimal_hexadecatet : Bytes → Option (ℕ × Bytes)
unfolding parse_hexadecimal_number
parse_hexadecimal_hexadecatet = parse_hexadecimal_number 0xffff 1
