-- ===== src/Parser/Number/Hexadecimal.antt =====
-- `parseHexadecimalNumber` of buf/validate/internal/lib/parser_common.h against the value of a run
-- of hexadecimal digits.
use mathlib.Core.Path.{subst}
use native.Mathlib.Nat.{mul-le-mul_right, pow-le-pow_right}
use protovalidate_cc.Base.{
  ℕ, ◌+◌, ◌*◌, ◌^◌, ◌≤◌, ◌<◌, ◌≡◌, sym, ap, ◌∙◌, ◌↔◌, inl, inr, Option, some, [], ◌∷◌, ◌++◌, arith,
  Bytes, length, Option-cases,
}
use protovalidate_cc.Parser.Number.Loop.{
  digits_value, digits_value_inv, Ends, number_loop-Read, number_loop-append,
}
use protovalidate_cc.Parser.Number.{
  Scan, calculate_hexadecimal_digits, hexadecimal_digit_value, hexadecimal_loop, enough_digits,
  parse_hexadecimal_number,
}

-- The value of a text of hexadecimal digits; `none` where a byte is no such digit.
abbrev pub hexadecimal_value : ℕ → Bytes → Option ℕ
hexadecimal_value = digits_value 16 hexadecimal_digit_value

pub hexadecimal_digit_small : (c d : ℕ) → hexadecimal_digit_value c ≡ some d → d < 16
unfolding hexadecimal_digit_value
hexadecimal_digit_small c d h = ground arith

-- `s` starts with a run of hexadecimal digits, as many as the bounds allow, of a value up to
-- `max_value`, and no digit follows it.
pub record StartsHexadecimal (max_value min_digits : ℕ) (s : Bytes) (v : ℕ) (rest : Bytes)
    : Type 0 where
  pub text : Bytes
  pub splits : s ≡ text ++ rest
  pub some_digit : 1 ≤ length text
  pub enough : min_digits ≤ length text
  pub few : length text ≤ calculate_hexadecimal_digits max_value
  pub value : hexadecimal_value 0 text ≡ some v
  pub bounded : v ≤ max_value
  pub ends : Ends hexadecimal_digit_value rest

first_value :
    (c d : ℕ) (text : Bytes)
    → hexadecimal_digit_value c ≡ some d
    → hexadecimal_value 0 (c ∷ text) ≡ hexadecimal_value d text
unfolding digits_value
first_value c d text h = ground arith

enough_digits_inv :
    (m max_value min_digits : ℕ) (r : Scan) {v : ℕ} {rest : Bytes}
    → enough_digits m max_value min_digits r ≡ some (v, rest)
    → (min_digits ≤ r.i) × (r.i ≤ m) × (r.value ≡ v) × (r.rest ≡ rest) × (v ≤ max_value)
unfolding enough_digits
enough_digits_inv m max_value min_digits r h = ground arith

enough_digits-some :
    (m max_value min_digits : ℕ) (r : Scan)
    → min_digits ≤ r.i
    → r.i ≤ m
    → r.value ≤ max_value
    → enough_digits m max_value min_digits r ≡ some (r.value, r.rest)
unfolding enough_digits
enough_digits-some m max_value min_digits r h k l = ground arith

module _ (max_value min_digits : ℕ) (small : calculate_hexadecimal_digits max_value ≤ 7) where
  abbrev digits : ℕ
  digits = calculate_hexadecimal_digits max_value

  parse_first :
      (c d : ℕ) (cs : Bytes)
      → hexadecimal_digit_value c ≡ some d
      → parse_hexadecimal_number max_value min_digits (c ∷ cs)
        ≡ enough_digits digits max_value min_digits (hexadecimal_loop digits 1 d cs)
  unfolding parse_hexadecimal_number
  parse_first c d cs found = ground arith

  room : (d : ℕ) → d < 16 → (d + 1) * 16 ^ digits ≤ 2 ^ 32
  room d h =
      let power : 16 ^ digits ≤ 16 ^ 7 = pow-le-pow_right (omega arith) small in
      let scaled : (d + 1) * 16 ^ digits ≤ 16 * 16 ^ digits =
        mul-le-mul_right (16 ^ digits) (omega arith) in
      omega arith

  first_sound :
      (c d : ℕ) (cs : Bytes) {v : ℕ} {rest : Bytes}
      → hexadecimal_digit_value c ≡ some d
      → parse_hexadecimal_number max_value min_digits (c ∷ cs) ≡ some (v, rest)
      → StartsHexadecimal max_value min_digits (c ∷ cs) v rest
  first_sound c d cs found h =
      let (enough, few, same, left, bounded) =
        enough_digits_inv digits max_value min_digits _ (sym (parse_first c d cs found) ∙ h) in
      let read =
        number_loop-Read 16 hexadecimal_digit_value digits hexadecimal_digit_small cs digits 1 d
          (omega arith) (room d (hexadecimal_digit_small c d found)) in
      record {
        text = c ∷ read.text;
        splits = ap (◌∷◌ c) (read.splits ∙ ap (◌++◌ read.text) left);
        some_digit = omega arith;
        enough = omega (arith, read.count);
        few = omega (arith, read.count);
        value = first_value c d read.text found ∙ read.sum ∙ ap some same;
        bounded = bounded;
        ends = subst (Ends hexadecimal_digit_value) left (read.stops few);
      }

  pub parse_hexadecimal_number_sound :
      (s : Bytes) {v : ℕ} {rest : Bytes}
      → parse_hexadecimal_number max_value min_digits s ≡ some (v, rest)
      → StartsHexadecimal max_value min_digits s v rest
  unfolding parse_hexadecimal_number
  parse_hexadecimal_number_sound [] h = absurd (ground arith)
  parse_hexadecimal_number_sound (c ∷ cs) h = elim (Option-cases (hexadecimal_digit_value c)) [
    | inl stop ↦ absurd (ground arith)
    | inr (d, found) ↦ first_sound c d cs found h
  ]

  pub parse_hexadecimal_number_complete :
      (text rest : Bytes) {v : ℕ}
      → 1 ≤ length text
      → min_digits ≤ length text
      → length text ≤ digits
      → hexadecimal_value 0 text ≡ some v
      → v ≤ max_value
      → Ends hexadecimal_digit_value rest
      → parse_hexadecimal_number max_value min_digits (text ++ rest) ≡ some (v, rest)
  parse_hexadecimal_number_complete [] rest one enough few h bounded ends = absurd (omega arith)
  parse_hexadecimal_number_complete (c ∷ text) rest one enough few h bounded ends =
      let (d, found, _) = digits_value_inv 16 hexadecimal_digit_value 0 c text h in
      let run =
        number_loop-append 16 hexadecimal_digit_value digits hexadecimal_digit_small text rest
          digits 1 d (sym (first_value c d text found) ∙ h) (omega arith)
          (room d (hexadecimal_digit_small c d found)) (omega arith) ends in
      parse_first c d (text ++ rest) found
      ∙ rw run
          (enough_digits-some digits max_value min_digits _ (omega arith) (omega arith) bounded)

  -- `parseHexadecimalNumber` accepts exactly the runs of hexadecimal digits within its bounds
  -- that no further digit follows, where the bound has at most seven digits.
  pub parse_hexadecimal_number_iff :
      (s : Bytes) (v : ℕ) (rest : Bytes)
      → (parse_hexadecimal_number max_value min_digits s ≡ some (v, rest))
        ↔ StartsHexadecimal max_value min_digits s v rest
  parse_hexadecimal_number_iff s v rest = (
    parse_hexadecimal_number_sound s,
    λ r. rw r.splits (
        parse_hexadecimal_number_complete r.text rest r.some_digit r.enough r.few r.value r.bounded
          r.ends),
  )
