-- ===== src/Ipv6/Bounds.antt =====
-- The bits that ipv6.cc reads fit the bitset.
use native.Mathlib.Nat.{mod-lt}
use protovalidate_cc.Base.Bits.{bit_or-lt}
use protovalidate_cc.Base.{
  ℕ, zero, suc, ◌-◌, ◌*◌, ◌^◌, ◌≤◌, ◌<◌, ◌≡◌, refl, inl, inr, Option, none, some, [], ◌∷◌, arith,
  Bytes, length, Option-cases,
}
use protovalidate_cc.Ipv6.Fuel.{hexadecatet_sound}
use protovalidate_cc.Ipv6.Outcome.{Result, ok, failed, out_of_fuel, bind}
use protovalidate_cc.Ipv6.{
  Ipv6Prefix, AddressScan, Round, continue_with, break_with, return_false, shift_left, double_colon,
  single_colon, colons, dotted, hexadecatet, round, scan_loop, start, finish, parse_address_part,
  prefix_length_part, parse_ipv6_prefix,
}
use protovalidate_cc.Parser.Chars.{char, consume, consume_sequence}
use protovalidate_cc.Parser.Number.Decimal.{IsMax, parse_decimal_number_sound}
use protovalidate_cc.Parser.Number.{
  calculate_decimal_digits, parse_decimal_number, parse_hexadecimal_hexadecatet,
}
use protovalidate_cc.Parser.Quad.Laws.{parse_quad_iff}
use protovalidate_cc.Parser.Quad.{Quad, parse_quad, or_octets}

record Fits (s : AddressScan) : Type 0 where
  bits_lt : s.bits < 2 ^ 128
  b_lt : s.b < 2 ^ 128

abbrev RoundFits : Round → Type 0
RoundFits (continue_with t) = Fits t
RoundFits (break_with t) = Fits t
RoundFits return_false = Unit {0}

abbrev LoopFits : Result AddressScan → Type 0
LoopFits (ok t) = Fits t
LoopFits failed = Unit {0}
LoopFits out_of_fuel = Unit {0}

shift_left-lt : (b n : ℕ) → shift_left b n < 2 ^ 128
shift_left-lt b n = mod-lt (b * 2 ^ n) (omega arith)

double_colon-Fits : (s : AddressScan) (rest : Bytes) → Fits s → RoundFits (double_colon s rest)
unfolding double_colon
double_colon-Fits s rest f = ground (
  arith,
  bit_or-lt 128 s.bits (shift_left s.b ((8 - s.index) * 16)) f.bits_lt
      (shift_left-lt s.b ((8 - s.index) * 16)),
)

single_colon-Fits : (s : AddressScan) (rest : Bytes) → Fits s → RoundFits (single_colon s rest)
unfolding single_colon
single_colon-Fits s [] f = tt
single_colon-Fits s (c ∷ cs) f = ground arith

colons-Fits : (s : AddressScan) → Fits s → RoundFits (colons s)
unfolding colons
colons-Fits s f = ground (
  arith,
  double_colon-Fits s (consume_sequence (b':' ∷ b':' ∷ []) s.str).1 f,
  single_colon-Fits s (consume (char b':') s.str).1 f,
)

or_octets-lt :
    (bits : ℕ) (q : Quad)
    → bits < 2 ^ 128
    → q.o0 ≤ 255
    → q.o1 ≤ 255
    → q.o2 ≤ 255
    → q.o3 ≤ 255
    → or_octets bits q < 2 ^ 128
unfolding or_octets
or_octets-lt bits q h h0 h1 h2 h3 =
    let e0 = bit_or-lt 128 bits (q.o0 * 2 ^ 24) h (omega arith) in
    let e1 = bit_or-lt 128 _ (q.o1 * 2 ^ 16) e0 (omega arith) in
    let e2 = bit_or-lt 128 _ (q.o2 * 2 ^ 8) e1 (omega arith) in
    bit_or-lt 128 _ q.o3 e2 (omega arith)

dotted-Fits : (s : AddressScan) → Fits s → RoundFits (dotted s)
unfolding dotted
dotted-Fits s f = elim (Option-cases (parse_quad s.str)) [
  | inl e ↦ rw (e, dotted) tt
  | inr ((q, rest), e) ↦
      rw (e, dotted)
        (let r = (parse_quad_iff s.str q rest).0 e in
          record {
            bits_lt = or_octets-lt s.bits q f.bits_lt r.octet0.1 r.octet1.1 r.octet2.1 r.octet3.1;
            b_lt = shift_left-lt s.b 32;
          })
]

hexadecatet-Fits : (s : AddressScan) → Fits s → RoundFits (hexadecatet s)
unfolding hexadecatet
hexadecatet-Fits s f = elim (Option-cases (parse_hexadecimal_hexadecatet s.str)) [
  | inl e ↦ rw (e, hexadecatet) (colons-Fits s f)
  | inr ((v, rest), e) ↦
      rw (e, hexadecatet)
        (let r = hexadecatet_sound s.str e in
          record {
            bits_lt = f.bits_lt;
            b_lt =
                bit_or-lt 128 (shift_left s.b 16) v (shift_left-lt s.b 16)
                  (omega (arith, r.bounded));
          })
]

round-Fits : (s : AddressScan) → Fits s → RoundFits (round s)
unfolding round
round-Fits s f = ground (arith, dotted-Fits s f, hexadecatet-Fits s f)

loop_round-Fits :
    (fuel : ℕ) (s : AddressScan) (r : Round)
    → round s ≡ r
    → Fits s
    → RoundFits r
    → ((t : AddressScan) → Fits t → LoopFits (scan_loop fuel t))
    → LoopFits (scan_loop (suc fuel) s)
unfolding scan_loop
loop_round-Fits fuel s (continue_with t) e f g ih = ground (arith, ih t g)
loop_round-Fits fuel s _ e f g ih = ground arith

scan_loop-Fits : (fuel : ℕ) (s : AddressScan) → Fits s → LoopFits (scan_loop fuel s)
unfolding scan_loop
scan_loop-Fits zero s f = tt
scan_loop-Fits (suc fuel) s f =
    loop_round-Fits fuel s (round s) refl f (round-Fits s f) (scan_loop-Fits fuel)

abbrev PartFits : Result (ℕ × Bytes) → Type 0
PartFits (ok (bits, _)) = bits < 2 ^ 128
PartFits failed = Unit {0}
PartFits out_of_fuel = Unit {0}

finish-PartFits : (r : Result AddressScan) → LoopFits r → PartFits (bind r finish)
unfolding finish
finish-PartFits (ok s) f = ground (arith, bit_or-lt 128 s.bits s.b f.bits_lt f.b_lt)
finish-PartFits failed f = tt
finish-PartFits out_of_fuel f = tt

part-PartFits : (str : Bytes) → PartFits (parse_address_part str)
unfolding parse_address_part
part-PartFits str =
    finish-PartFits (scan_loop (suc (length str)) (start str))
      (scan_loop-Fits (suc (length str)) (start str) (omega arith))

abbrev pub PrefixFits : Result Ipv6Prefix → Type 0
PrefixFits (ok p) = (p.bits < 2 ^ 128) × (p.prefix_length ≤ 128)
PrefixFits failed = Unit {0}
PrefixFits out_of_fuel = Unit {0}

pub length-IsMax : IsMax 128
unfolding calculate_decimal_digits
length-IsMax = record { few = omega arith; some_digit = omega arith; below = omega arith }

prefix_length_le : (rest : Bytes) {len : ℕ} → prefix_length_part rest ≡ some len → len ≤ 128
unfolding prefix_length_part
prefix_length_le rest {len} h =
    elim (Option-cases (parse_decimal_number 128 (consume (char b'/') rest).1)) [
      | inl e ↦ absurd (ground arith)
      | inr ((v, left), e) ↦
          let r = parse_decimal_number_sound 128 length-IsMax (consume (char b'/') rest).1 e in
          ground (arith, r.bounded)
    ]

-- An IPv6 prefix that is read fits the 128 bits of its bitset, and its length is at most 128.
pub parse_ipv6_prefix-PrefixFits : (str : Bytes) → PrefixFits (parse_ipv6_prefix str)
unfolding parse_ipv6_prefix
parse_ipv6_prefix-PrefixFits str = go (parse_address_part str) (part-PartFits str)
  where
    go_length :
        (bits : ℕ) (rest : Bytes)
        → bits < 2 ^ 128
        → (l : Option ℕ) → prefix_length_part rest ≡ l
        → PrefixFits
            (elim l [ none ↦ failed | some len ↦ ok (record { bits = bits; prefix_length = len }) ])
    go_length bits rest h none e = tt
    go_length bits rest h (some len) e = (h, prefix_length_le rest e)

    go :
        (r : Result (ℕ × Bytes))
        → PartFits r
        → PrefixFits (
            bind r λ (bits, rest). elim (prefix_length_part rest) [
              | none ↦ failed
              | some len ↦ ok (record { bits = bits; prefix_length = len })
            ])
    go (ok (bits, rest)) f = go_length bits rest f (prefix_length_part rest) refl
    go failed f = tt
    go out_of_fuel f = tt
