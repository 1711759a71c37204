-- ===== src/Parser/Number/Decimal.antt =====
-- `parseDecimalNumber` of buf/validate/internal/lib/parser_common.h against decimal notation.
pub mod Notation
pub use Notation.*
use native.Mathlib.Decide.{dec_lt, ℕ_discrete}
use native.Mathlib.Nat.{pow-suc, mul-le-mul_right, pow-le-pow_right}
use mathlib.Core.Path.{subst}
use protovalidate_cc.Base.{
  ℕ, suc, ◌+◌, ◌-◌, ◌*◌, ◌^◌, ◌≤◌, ◌<◌, ◌≡◌, ◌≢◌, refl, ◌↔◌, ◌∙◌, Option, none, some, [], ◌∷◌, ◌++◌,
  arith, Bytes, length, Option-cases, inl, inr, ap, sym,
}
use protovalidate_cc.Parser.Number.Loop.{
  digits_value, digits_value_inv, Ends, step_bound, number_loop-Read, number_loop-append,
}
use protovalidate_cc.Parser.Number.{
  Scan, unsigned, calculate_decimal_digits, decimal_digit_value, decimal_loop, in_range,
  decimal_tail, parse_decimal_number,
}

in_range_inv :
    (m max_value : ℕ) (r : Scan) {v : ℕ} {rest : Bytes}
    → in_range m max_value r ≡ some (v, rest)
    → (r.i ≤ m) × (r.value ≡ v) × (r.rest ≡ rest) × (v ≤ max_value)
unfolding in_range
in_range_inv m max_value r h = ground arith

in_range-some :
    (m max_value : ℕ) (r : Scan)
    → r.i ≤ m
    → r.value ≤ max_value
    → in_range m max_value r ≡ some (r.value, r.rest)
unfolding in_range
in_range-some m max_value r h k = ground arith

module _ (max_value : ℕ) (ok : IsMax max_value) where
  abbrev digits : ℕ
  digits = calculate_decimal_digits max_value

  parse_first :
      (c : ℕ) (cs : Bytes) {d : ℕ}
      → decimal_digit_value c ≡ some d
      → parse_decimal_number max_value (c ∷ cs) ≡ decimal_tail max_value d cs
  unfolding parse_decimal_number
  parse_first c cs h = ground arith

  tail-Ends :
      (d : ℕ) (cs : Bytes)
      → Ends decimal_digit_value cs
      → decimal_tail max_value d cs
        ≡ in_range digits max_value (record { i = 1; value = d; rest = cs })
  unfolding decimal_tail
  tail-Ends d [] h = refl
  tail-Ends d (e ∷ es) h = ground arith

  tail_zero :
      (e x : ℕ) (es : Bytes)
      → decimal_digit_value e ≡ some x
      → decimal_tail max_value 0 (e ∷ es) ≡ none
  unfolding decimal_tail
  tail_zero e x es h = ground arith

  room : (d : ℕ) → d < 10 → (d + 1) * 10 ^ digits ≤ 2 ^ 32
  room d h =
      let power : 10 ^ digits ≤ 10 ^ 8 = pow-le-pow_right (omega arith) ok.few in
      let scaled : (d + 1) * 10 ^ digits ≤ 10 * 10 ^ digits =
        mul-le-mul_right (10 ^ digits) (omega arith) in
      omega arith

  more_room :
      (d x : ℕ)
      → d < 10
      → x < 10
      → (unsigned (unsigned (d * 10) + x) ≡ d * 10 + x)
        × ((d * 10 + x + 1) * 10 ^ (digits - 1) ≤ 2 ^ 32)
  more_room d x h k =
      let e : suc (digits - 1) ≡ digits = omega (arith, ok.some_digit) in
      step_bound 10 (digits - 1) d x k (rw e (room d h))

  tail_more :
      (d e x : ℕ) (es : Bytes)
      → d < 10
      → x < 10
      → d ≢ 0
      → decimal_digit_value e ≡ some x
      → decimal_tail max_value d (e ∷ es)
        ≡ in_range digits max_value (decimal_loop digits 2 (d * 10 + x) es)
  unfolding decimal_tail
  tail_more d e x es h k nonzero found = ground (arith, (more_room d x h k).0)

  one_digit :
      (c d : ℕ) (cs : Bytes) {v : ℕ} {rest : Bytes}
      → decimal_digit_value c ≡ some d
      → Ends decimal_digit_value cs
      → in_range digits max_value (record { i = 1; value = d; rest = cs }) ≡ some (v, rest)
      → StartsDecimal max_value (c ∷ cs) v rest
  one_digit c d cs found ends h =
      let (count, same, left, bounded) = in_range_inv digits max_value _ h in
      record {
        text = c ∷ [];
        splits = ap (◌∷◌ c) left;
        decimal = found ∙ ap some same;
        bounded = bounded;
        ends = subst (Ends decimal_digit_value) left ends;
      }

  more_digits :
      (c d e x : ℕ) (es : Bytes) {v : ℕ} {rest : Bytes}
      → decimal_digit_value c ≡ some d
      → decimal_digit_value e ≡ some x
      → d ≢ 0
      → in_range digits max_value (decimal_loop digits 2 (d * 10 + x) es) ≡ some (v, rest)
      → StartsDecimal max_value (c ∷ e ∷ es) v rest
  more_digits c d e x es found found' nonzero h =
      let small = decimal_digit_small c d found in
      let small' = decimal_digit_small e x found' in
      let read =
        number_loop-Read 10 decimal_digit_value digits decimal_digit_small es (digits - 1) 2
          (d * 10 + x) (omega (arith, ok.some_digit)) (more_room d x small small').1 in
      let (count, same, left, bounded) = in_range_inv digits max_value _ h in
      record {
        text = c ∷ e ∷ read.text;
        splits = ap (λ t. c ∷ e ∷ t) (read.splits ∙ ap (◌++◌ read.text) left);
        decimal =
            (ground arith, two_values c d e x read.text found found' ∙ read.sum ∙ ap some same);
        bounded = bounded;
        ends = subst (Ends decimal_digit_value) left (read.stops count);
      }

  tail_sound :
      (c d : ℕ) (cs : Bytes) {v : ℕ} {rest : Bytes}
      → decimal_digit_value c ≡ some d
      → decimal_tail max_value d cs ≡ some (v, rest)
      → StartsDecimal max_value (c ∷ cs) v rest
  tail_sound c d [] found h = one_digit c d [] found tt (sym (tail-Ends d [] tt) ∙ h)
  tail_sound c d (e ∷ es) found h = elim (Option-cases (decimal_digit_value e)) [
    | inl stop ↦ one_digit c d (e ∷ es) found stop (sym (tail-Ends d (e ∷ es) stop) ∙ h)
    | inr (x, found') ↦ elim (ℕ_discrete d 0) [
      | yes zero_first ↦ absurd (ground (arith, tail_zero e x es found'))
      | no nonzero ↦
          let small = decimal_digit_small c d found in
          let small' = decimal_digit_small e x found' in
          more_digits c d e x es found found' nonzero
            (sym (tail_more d e x es small small' nonzero found') ∙ h)
    ]
  ]

  -- Whatever is read is decimal notation within the bound.
  pub parse_decimal_number_sound :
      (s : Bytes) {v : ℕ} {rest : Bytes}
      → parse_decimal_number max_value s ≡ some (v, rest)
      → StartsDecimal max_value s v rest
  unfolding parse_decimal_number
  parse_decimal_number_sound [] h = absurd (ground arith)
  parse_decimal_number_sound (c ∷ cs) h = elim (Option-cases (decimal_digit_value c)) [
    | inl stop ↦ absurd (ground arith)
    | inr (d, found) ↦ tail_sound c d cs found (sym (parse_first c cs found) ∙ h)
  ]

  length_bound :
      (text : Bytes) (acc : ℕ) {v : ℕ}
      → 0 < acc
      → decimal_value acc text ≡ some v
      → v ≤ max_value
      → length text < digits
  length_bound text acc pos h bounded = elim (dec_lt (length text) digits) [
    | yes p ↦ p
    | no p ↦
        let power : 10 ^ digits ≤ 10 ^ length text = pow-le-pow_right (omega arith) (omega arith) in
        let scaled : 1 * 10 ^ length text ≤ acc * 10 ^ length text =
          mul-le-mul_right (10 ^ length text) pos in
        absurd (omega (arith, decimal_value-ge text acc h, ok.below))
  ]

  more_complete :
      (c e : ℕ) (text rest : Bytes) {v : ℕ}
      → IsDecimal v (c ∷ e ∷ text)
      → v ≤ max_value
      → Ends decimal_digit_value rest
      → parse_decimal_number max_value (c ∷ e ∷ (text ++ rest)) ≡ some (v, rest)
  more_complete c e text rest (nonzero, h) bounded ends =
      let (d, found, h') = digits_value_inv 10 decimal_digit_value 0 c (e ∷ text) h in
      let (x, found', _) = digits_value_inv 10 decimal_digit_value _ e text h' in
      let d_pos : d ≢ 0 = λ z. nonzero (found ∙ ap some z) in
      let small = decimal_digit_small c d found in
      let small' = decimal_digit_small e x found' in
      let len = length_bound (e ∷ text) (0 * 10 + d) (omega arith) h' bounded in
      let value = sym (two_values c d e x text found found') ∙ h in
      let run =
        number_loop-append 10 decimal_digit_value digits decimal_digit_small text rest (digits - 1)
          2 (d * 10 + x) value (omega (arith, ok.some_digit)) (more_room d x small small').1
          (omega arith) ends in
      parse_first c (e ∷ (text ++ rest)) found
      ∙ tail_more d e x (text ++ rest) small small' d_pos found'
      ∙ rw run (in_range-some digits max_value _ (omega arith) bounded)

  -- Decimal notation within the bound is read, up to what follows it.
  pub parse_decimal_number_complete :
      (text rest : Bytes) {v : ℕ}
      → IsDecimal v text
      → v ≤ max_value
      → Ends decimal_digit_value rest
      → parse_decimal_number max_value (text ++ rest) ≡ some (v, rest)
  parse_decimal_number_complete [] rest h bounded ends = absurd h
  parse_decimal_number_complete (c ∷ []) rest h bounded ends =
      parse_first c rest h
      ∙ tail-Ends _ rest ends
      ∙ in_range-some digits max_value _ ok.some_digit bounded
  parse_decimal_number_complete (c ∷ e ∷ text) rest h bounded ends =
      more_complete c e text rest h bounded ends

  -- `parseDecimalNumber` accepts exactly the decimal numbers up to the bound that no further
  -- digit follows, without leading zeros, where the bound has at most eight digits.
  pub parse_decimal_number_iff :
      (s : Bytes) (v : ℕ) (rest : Bytes)
      → (parse_decimal_number max_value s ≡ some (v, rest)) ↔ StartsDecimal max_value s v rest
  parse_decimal_number_iff s v rest = (
    parse_decimal_number_sound s,
    λ r. rw r.splits (parse_decimal_number_complete r.text rest r.decimal r.bounded r.ends),
  )
