-- ===== src/Ipv6/Fuel.antt =====
-- The fuel of the loop in ipv6.cc is enough for every input.
use protovalidate_cc.Base.{
  ℕ, zero, suc, ◌<◌, ◌≡◌, ◌≢◌, refl, ap, inl, inr, true, some, [], ◌∷◌, arith, Bytes, length,
  length-append, Bool-cases, Option-cases,
}
use protovalidate_cc.Ipv6.Outcome.{Result, ok, failed, out_of_fuel, bind}
use protovalidate_cc.Ipv6.{
  AddressScan, Round, continue_with, break_with, return_false, double_colon, single_colon, colons,
  dotted, hexadecatet, round, scan_loop, start, finish, parse_address_part, parse_ipv6_address,
  parse_ipv6_prefix,
}
use protovalidate_cc.Parser.Chars.{char, consume, consume_sequence}
use protovalidate_cc.Parser.Number.Hexadecimal.{StartsHexadecimal, parse_hexadecimal_number_sound}
use protovalidate_cc.Parser.Number.{parse_hexadecimal_hexadecatet, calculate_hexadecimal_digits}

-- What a round leaves is shorter, where the loop goes on.
abbrev pub Shrinks : AddressScan → Round → Type 0
Shrinks s (continue_with t) = length t.str < length s.str
Shrinks s (break_with t) = Unit {0}
Shrinks s return_false = Unit {0}

pub hexadecatet_sound :
    (s : Bytes) {v : ℕ} {rest : Bytes}
    → parse_hexadecimal_hexadecatet s ≡ some (v, rest)
    → StartsHexadecimal 0xffff 1 s v rest
unfolding parse_hexadecimal_hexadecatet calculate_hexadecimal_digits
hexadecatet_sound s h = parse_hexadecimal_number_sound 0xffff 1 (omega arith) s h

double_colon-Shrinks :
    (s : AddressScan) (rest : Bytes) → length rest < length s.str → Shrinks s (double_colon s rest)
unfolding double_colon
double_colon-Shrinks s rest h = ground arith

single_colon-Shrinks :
    (s : AddressScan) (rest : Bytes) → length rest < length s.str → Shrinks s (single_colon s rest)
unfolding single_colon
single_colon-Shrinks s [] h = tt
single_colon-Shrinks s (c ∷ cs) h = ground arith

consume-shrinks : (seq s : Bytes) → (consume seq s).0 ≡ true → length (consume seq s).1 < length s
unfolding consume
consume-shrinks seq [] h = cc
consume-shrinks seq (c ∷ cs) h = ground arith

two_colons-shrinks :
    (s : Bytes)
    → (consume_sequence (b':' ∷ b':' ∷ []) s).0 ≡ true
    → length (consume_sequence (b':' ∷ b':' ∷ []) s).1 < length s
unfolding consume_sequence
two_colons-shrinks [] h = ground arith
two_colons-shrinks (c ∷ []) h = ground arith
two_colons-shrinks (c ∷ d ∷ cs) h = ground arith

colons-Shrinks : (s : AddressScan) → Shrinks s (colons s)
unfolding colons
colons-Shrinks s = elim (Bool-cases (consume_sequence (b':' ∷ b':' ∷ []) s.str).0) [
  | inl two ↦ rw two (double_colon-Shrinks s _ (two_colons-shrinks s.str two))
  | inr none_two ↦ rw none_two (elim (Bool-cases (consume (char b':') s.str).0) [
    | inl one ↦ rw one (single_colon-Shrinks s _ (consume-shrinks (char b':') s.str one))
    | inr none_one ↦ rw none_one tt
  ])
]

dotted-Shrinks : (s : AddressScan) → Shrinks s (dotted s)
unfolding dotted
dotted-Shrinks s = ground arith

hexadecatet-Shrinks : (s : AddressScan) → Shrinks s (hexadecatet s)
unfolding hexadecatet
hexadecatet-Shrinks s = elim (Option-cases (parse_hexadecimal_hexadecatet s.str)) [
  | inl e ↦ rw (e, hexadecatet) (colons-Shrinks s)
  | inr ((v, rest), e) ↦
      rw (e, hexadecatet)
        (let r = hexadecatet_sound s.str e in
          omega (arith, ap length r.splits, length-append r.text rest, r.some_digit))
]

pub round-Shrinks : (s : AddressScan) → Shrinks s (round s)
unfolding round
round-Shrinks s = ground (arith, dotted-Shrinks s, hexadecatet-Shrinks s)

loop_round-ne-out_of_fuel :
    (fuel : ℕ) (s : AddressScan) (r : Round)
    → round s ≡ r
    → Shrinks s r
    → length s.str < suc fuel
    → ((t : AddressScan) → length t.str < fuel → scan_loop fuel t ≢ out_of_fuel)
    → scan_loop (suc fuel) s ≢ out_of_fuel
unfolding scan_loop
loop_round-ne-out_of_fuel fuel s (continue_with t) e shrinks h ih =
    ground (arith, ih t (omega arith))
loop_round-ne-out_of_fuel fuel s _ e shrinks h ih = ground arith

-- With more fuel than bytes the loop ends.
pub scan_loop-ne-out_of_fuel :
    (fuel : ℕ) (s : AddressScan) → length s.str < fuel → scan_loop fuel s ≢ out_of_fuel
scan_loop-ne-out_of_fuel zero s h = absurd (omega arith)
scan_loop-ne-out_of_fuel (suc fuel) s h =
    loop_round-ne-out_of_fuel fuel s (round s) refl (round-Shrinks s) h
      (scan_loop-ne-out_of_fuel fuel)

finish-ne-out_of_fuel : (s : AddressScan) → finish s ≢ out_of_fuel
unfolding finish
finish-ne-out_of_fuel s = ground arith

bind-ne-out_of_fuel {ℓ κ} :
    {A : Type ℓ} {B : Type κ} (m : Result A) (f : A → Result B)
    → m ≢ out_of_fuel
    → ((a : A) → f a ≢ out_of_fuel)
    → bind m f ≢ out_of_fuel
bind-ne-out_of_fuel (ok a) f h k = k a
bind-ne-out_of_fuel failed f h k = λ e. cc
bind-ne-out_of_fuel out_of_fuel f h k = λ _. h refl

pub parse_address_part-ne-out_of_fuel : (str : Bytes) → parse_address_part str ≢ out_of_fuel
unfolding parse_address_part
parse_address_part-ne-out_of_fuel str =
    bind-ne-out_of_fuel (scan_loop (suc (length str)) (start str)) finish
      (scan_loop-ne-out_of_fuel (suc (length str)) (start str) (omega arith)) finish-ne-out_of_fuel

-- Parsing an IPv6 address, or a prefix, terminates with an answer on every input: the fuel that
-- the model hands out never runs out.
pub parse_ipv6-terminates :
    (str : Bytes) → (parse_ipv6_address str ≢ out_of_fuel) × (parse_ipv6_prefix str ≢ out_of_fuel)
unfolding parse_ipv6_address parse_ipv6_prefix
parse_ipv6-terminates str = (
  bind-ne-out_of_fuel (parse_address_part str) _ (parse_address_part-ne-out_of_fuel str)
      (λ (bits, rest). ground arith),
  bind-ne-out_of_fuel (parse_address_part str) _ (parse_address_part-ne-out_of_fuel str)
      (λ (bits, rest). ground arith),
)
