-- ===== src/Ipv6/Runs.antt =====
-- The loop of ipv6.cc as a relation, and its rounds on the pieces of an address text.
use mathlib.Core.Path.{subst}
use native.Mathlib.Nat.{pow-le-pow_right}
use protovalidate_cc.Base.{
  ℕ, zero, suc, ◌+◌, ◌-◌, ◌*◌, ◌^◌, ◌≤◌, ◌<◌, ◌≡◌, ◌≢◌, refl, ◌∙◌, bit_or, Bool, true, false, ◌&&◌,
  ◌||◌, none, some, ◌∷◌, ◌++◌, arith, Bytes, length, ◌==◌,
}
use protovalidate_cc.Ipv6.Fuel.{Shrinks, round-Shrinks}
use protovalidate_cc.Ipv6.Outcome.{Result, ok, failed}
use protovalidate_cc.Ipv6.{
  AddressScan, continue_with, break_with, return_false, shift_left, check_dotted, double_colon,
  single_colon, colons, dotted, hexadecatet, round, scan_loop,
}
use protovalidate_cc.Parser.Chars.{char, consume, consume_sequence}
use protovalidate_cc.Parser.Number.Hexadecimal.{
  hexadecimal_value, hexadecimal_digit_small, parse_hexadecimal_number_complete,
}
use protovalidate_cc.Parser.Number.Loop.{Ends, digits_value-lt}
use protovalidate_cc.Parser.Number.{
  parse_hexadecimal_hexadecatet, calculate_hexadecimal_digits, hexadecimal_digit_value,
}
use protovalidate_cc.Parser.Quad.Laws.{StartsQuad, parse_quad_iff}
use protovalidate_cc.Parser.Quad.{Quad, or_octets}

-- The loop goes from one state to its end, or to `return false`.
pub data Runs : AddressScan → Result AddressScan → Type 0 where
  full : {s : AddressScan} → 8 ≤ s.index → Runs s (ok s)
  stop : {s t : AddressScan} → s.index < 8 → round s ≡ break_with t → Runs s (ok t)
  fail : {s : AddressScan} → s.index < 8 → round s ≡ return_false → Runs s failed
  more :
      {s t : AddressScan} {r : Result AddressScan}
      → s.index < 8
      → round s ≡ continue_with t
      → Runs t r
      → Runs s r

continue-shrinks : (s t : AddressScan) → round s ≡ continue_with t → length t.str < length s.str
continue-shrinks s t e = subst (Shrinks s) e (round-Shrinks s)

module _ (fuel : ℕ) (s : AddressScan) where
  loop_full : 8 ≤ s.index → scan_loop (suc fuel) s ≡ ok s
  unfolding scan_loop
  loop_full i = ground arith

  loop_stop :
      {t : AddressScan} → s.index < 8 → round s ≡ break_with t → scan_loop (suc fuel) s ≡ ok t
  unfolding scan_loop
  loop_stop i e = ground arith

  loop_fail : s.index < 8 → round s ≡ return_false → scan_loop (suc fuel) s ≡ failed
  unfolding scan_loop
  loop_fail i e = ground arith

  loop_more :
      {t : AddressScan}
      → s.index < 8
      → round s ≡ continue_with t
      → scan_loop (suc fuel) s ≡ scan_loop fuel t
  unfolding scan_loop
  loop_more i e = ground arith

-- The loop with enough fuel computes what the relation says.
pub Runs-scan_loop :
    {s : AddressScan} {r : Result AddressScan} (fuel : ℕ)
    → Runs s r
    → length s.str < fuel
    → scan_loop fuel s ≡ r
Runs-scan_loop zero h lt = absurd (omega arith)
Runs-scan_loop (suc fuel) (full {s} i) lt = loop_full fuel s i
Runs-scan_loop (suc fuel) (stop {s} i e) lt = loop_stop fuel s i e
Runs-scan_loop (suc fuel) (fail {s} i e) lt = loop_fail fuel s i e
Runs-scan_loop (suc fuel) (more {s} {t} i e h) lt =
    loop_more fuel s i e ∙ Runs-scan_loop fuel h (omega (arith, continue-shrinks s t e))

-- The text of a hexadecatet: one to four hexadecimal digits.
pub record IsHexadecatet (v : ℕ) (text : Bytes) : Type 0 where
  pub some_digit : 1 ≤ length text
  pub few : length text ≤ 4
  pub value : hexadecimal_value 0 text ≡ some v

-- Four digits stay below 2 ^ 16.
pub hexadecatet_lt : {v : ℕ} (text : Bytes) → IsHexadecatet v text → v < 2 ^ 16
hexadecatet_lt text h =
    let bound =
      digits_value-lt 16 hexadecimal_digit_value 0 hexadecimal_digit_small text 0 h.value in
    let power : 16 ^ length text ≤ 16 ^ 4 =
      pow-le-pow_right {n = 16} (omega arith) {i = length text} {j = 4} h.few in
    omega arith

pub hexadecatet_complete :
    (text rest : Bytes) {v : ℕ}
    → IsHexadecatet v text
    → Ends hexadecimal_digit_value rest
    → parse_hexadecimal_hexadecatet (text ++ rest) ≡ some (v, rest)
unfolding parse_hexadecimal_hexadecatet calculate_hexadecimal_digits
hexadecatet_complete text rest h ends =
    parse_hexadecimal_number_complete 0xffff 1 (omega arith) text rest h.some_digit h.some_digit
      h.few h.value (omega (arith, hexadecatet_lt text h)) ends

module _ (bits b index : ℕ) (found : Bool) where
  abbrev at : Bytes → AddressScan
  at str = record { str = str; bits = bits; b = b; index = index; double_colon_found = found }

  -- A hexadecatet, where no dotted quad is looked for or none is in sight.
  pub round_hexadecatet :
      (text rest : Bytes) {v : ℕ}
      → IsHexadecatet v text
      → Ends hexadecimal_digit_value rest
      → ((found || index == 6) && check_dotted (text ++ rest)) ≡ false
      → round (at (text ++ rest))
        ≡ continue_with (record {
          str = rest;
          bits = bits;
          b = bit_or (shift_left b 16) v;
          index = index + 1;
          double_colon_found = found;
        })
  unfolding round hexadecatet
  round_hexadecatet text rest h ends no_quad = ground (arith, hexadecatet_complete text rest h ends)

  colon_no_hexadecatet : (rest : Bytes) → parse_hexadecimal_hexadecatet (b':' ∷ rest) ≡ none
  unfolding parse_hexadecimal_hexadecatet
  colon_no_hexadecatet rest = refl

  colon_no_quad : (rest : Bytes) → check_dotted (b':' ∷ rest) ≡ false
  unfolding check_dotted
  colon_no_quad rest = ground arith

  -- `::`, the first, with no third colon
  pub round_double_colon :
      (rest : Bytes)
      → (consume (char b':') rest).0 ≡ false
      → index ≤ 7
      → found ≡ false
      → round (at (b':' ∷ b':' ∷ rest))
        ≡ continue_with (record {
          str = rest;
          bits = bit_or bits (shift_left b ((8 - index) * 16));
          b = 0;
          index = index + 1;
          double_colon_found = true;
        })
  unfolding round hexadecatet colons double_colon consume_sequence
  round_double_colon rest no_third i f =
      ground (arith, colon_no_hexadecatet (b':' ∷ rest), colon_no_quad (b':' ∷ rest))

  -- one `:` behind a hexadecatet, with something behind it that is no colon
  pub round_single_colon :
      (c : ℕ) (rest : Bytes)
      → c ≢ b':'
      → 0 < index
      → round (at (b':' ∷ c ∷ rest)) ≡ continue_with (at (c ∷ rest))
  unfolding round hexadecatet colons single_colon consume_sequence consume char
  round_single_colon c rest ne i =
      ground (arith, colon_no_hexadecatet (c ∷ rest), colon_no_quad (c ∷ rest))

  -- a dotted quad, where it is looked for
  pub round_dotted :
      (str rest : Bytes) (q : Quad)
      → ((found || index == 6) && check_dotted str) ≡ true
      → StartsQuad str q rest
      → round (at str)
        ≡ break_with (record {
          str = rest;
          bits = or_octets bits q;
          b = shift_left b 32;
          index = index + 2;
          double_colon_found = found;
        })
  unfolding round dotted
  round_dotted str rest q seen r = ground (arith, (parse_quad_iff str q rest).1 r)
