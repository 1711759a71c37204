-- ===== src/ExtraFunc/Port/Laws.antt =====
-- A port is the decimal notation of a number up to 65535.
use protovalidate_cc.Base.{
  ℕ, ◌+◌, ◌-◌, ◌*◌, ◌≤◌, ◌≡◌, refl, ◌↔◌, true, false, ◌&&◌, none, some, [], ◌∷◌, ◌==◌, leb, ltb,
  within, arith, Bytes, length, Bool-cases, inl, inr,
}
use protovalidate_cc.ExtraFunc.Port.{SimpleAtoi, all_digits, is_port}
use protovalidate_cc.Parser.Number.Decimal.{IsDecimal, decimal_value}
use protovalidate_cc.Parser.Number.Loop.{digits_value, digits_value_inv}
use protovalidate_cc.Parser.Number.{decimal_digit_value}

digit_within : (c : ℕ) {d : ℕ} → decimal_digit_value c ≡ some d → within b'0' b'9' c ≡ true
unfolding decimal_digit_value
digit_within c h = ground arith

within_digit : (c : ℕ) → within b'0' b'9' c ≡ true → decimal_digit_value c ≡ some (c - b'0')
unfolding decimal_digit_value
within_digit c h = rw h refl

-- A text of digits has a value, and only such a text.
all_digits-value :
    (s : Bytes) (acc : ℕ) → all_digits s ≡ true → (v : ℕ) × (decimal_value acc s ≡ some v)
unfolding all_digits digits_value
all_digits-value [] acc h = (acc, refl)
all_digits-value (c ∷ cs) acc h = elim (Bool-cases (within b'0' b'9' c)) [
  | inl digit ↦
      let (v, e) = all_digits-value cs (acc * 10 + (c - b'0')) (rw (digit, all_digits) at h) in
      (v, rw (within_digit c digit, digits_value) e)
  | inr other ↦ absurd (ground arith)
]

value-all_digits :
    (s : Bytes) (acc : ℕ) {v : ℕ} → decimal_value acc s ≡ some v → all_digits s ≡ true
unfolding all_digits
value-all_digits [] acc h = refl
value-all_digits (c ∷ cs) acc h =
    let (d, found, h') = digits_value_inv 10 decimal_digit_value acc c cs h in
    rw (digit_within c found) (value-all_digits cs (acc * 10 + d) h')

-- What the tests in front of the conversion leave.
record Checked (atoi : SimpleAtoi) (c : ℕ) (text : Bytes) : Type 0 where
  leading : (ltb 1 (length (c ∷ text)) && c == b'0') ≡ false
  digits : all_digits (c ∷ text) ≡ true
  converted : elim (atoi.convert (c ∷ text)) [ none ↦ false | some port ↦ leb port 65535 ] ≡ true

is_port-Checked :
    (atoi : SimpleAtoi) (c : ℕ) (text : Bytes)
    → is_port atoi (c ∷ text) ≡ true
    → Checked atoi c text
unfolding is_port
is_port-Checked atoi c text h = record {
  leading = ground arith;
  digits = ground arith;
  converted = ground arith;
}

Checked-is_port :
    (atoi : SimpleAtoi) (c : ℕ) (text : Bytes)
    → Checked atoi c text
    → is_port atoi (c ∷ text) ≡ true
unfolding is_port
Checked-is_port atoi c text r = ground (arith, r.leading, r.digits, r.converted)

-- The conversion and the bound together let through the values up to 65535.
bounded_iff :
    (atoi : SimpleAtoi) (c : ℕ) (text : Bytes) (v : ℕ)
    → decimal_value 0 (c ∷ text) ≡ some v
    → (elim (atoi.convert (c ∷ text)) [ none ↦ false | some port ↦ leb port 65535 ] ≡ true)
      ↔ (v ≤ 65535)
bounded_iff atoi c text v h =
    (λ k. ground (arith, atoi.converts c text v h), λ k. ground (arith, atoi.converts c text v h))

-- `s` is the decimal notation of a number up to 65535.
pub record IsPortText (s : Bytes) : Type 0 where
  pub port : ℕ
  pub text : IsDecimal port s
  pub bounded : port ≤ 65535

IsDecimal-decimal_value :
    (c : ℕ) (text : Bytes) {v : ℕ} → IsDecimal v (c ∷ text) → decimal_value 0 (c ∷ text) ≡ some v
unfolding digits_value
IsDecimal-decimal_value c [] h = ground (arith, h)
IsDecimal-decimal_value c (d ∷ text) h = h.1

decimal_value-IsDecimal :
    (c : ℕ) (text : Bytes) {v : ℕ}
    → (ltb 1 (length (c ∷ text)) && c == b'0') ≡ false
    → decimal_value 0 (c ∷ text) ≡ some v
    → IsDecimal v (c ∷ text)
unfolding digits_value decimal_digit_value
decimal_value-IsDecimal c [] lead h = ground arith
decimal_value-IsDecimal c (d ∷ text) lead h = ((λ zero_first. ground arith), h)

IsDecimal-leading :
    (c : ℕ) (text : Bytes) (v : ℕ)
    → IsDecimal v (c ∷ text)
    → (ltb 1 (length (c ∷ text)) && c == b'0') ≡ false
unfolding decimal_digit_value
IsDecimal-leading c [] v h = refl
IsDecimal-leading c (d ∷ text) v h = elim (Bool-cases (c == b'0')) [
  | inl e ↦ absurd (h.0 (ground arith))
  | inr e ↦ ground arith
]

empty_refused : (atoi : SimpleAtoi) → is_port atoi [] ≡ true → ⊥
unfolding is_port
empty_refused atoi h = ground arith

-- `IsPort` accepts exactly the decimal notations of numbers up to 65535, without leading zeros,
-- where `absl::SimpleAtoi` converts runs of digits as documented.
pub is_port_iff : (atoi : SimpleAtoi) (s : Bytes) → (is_port atoi s ≡ true) ↔ IsPortText s
is_port_iff atoi [] = (λ h. absurd (empty_refused atoi h), λ r. absurd (r.text))
is_port_iff atoi (c ∷ cs) = (accepted, back)
  where
    accepted : is_port atoi (c ∷ cs) ≡ true → IsPortText (c ∷ cs)
    accepted h =
        let r = is_port-Checked atoi c cs h in
        let (v, e) = all_digits-value (c ∷ cs) 0 r.digits in
        record {
          port = v;
          text = decimal_value-IsDecimal c cs r.leading e;
          bounded = (bounded_iff atoi c cs v e).0 r.converted;
        }

    back : IsPortText (c ∷ cs) → is_port atoi (c ∷ cs) ≡ true
    back r =
        let value = IsDecimal-decimal_value c cs r.text in
        Checked-is_port atoi c cs (record {
          leading = IsDecimal-leading c cs r.port r.text;
          digits = value-all_digits (c ∷ cs) 0 value;
          converted = (bounded_iff atoi c cs r.port value).1 r.bounded;
        })
