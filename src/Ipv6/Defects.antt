-- ===== src/Ipv6/Defects.antt =====
-- Texts on which ipv6.cc and RFC 4291 differ, as classes of inputs.
use native.Mathlib.Nat.{pow-suc, mul-le-mul_right, mod-eq_of_lt}
use protovalidate_cc.Base.Bits.{zero-bit_or, bit_or-zero}
use protovalidate_cc.Base.{
  ℕ, suc, ◌+◌, ◌*◌, ◌^◌, ◌≤◌, ◌<◌, ◌≡◌, ◌≢◌, refl, ap, ◌∙◌, bit_or, true, false, none, some, List,
  [], ◌∷◌, ◌++◌, arith, Bytes, length,
}
use protovalidate_cc.Ipv6.Full.{
  NoDots, hex-NoDots, hex_no_colon, colon_stops, Group, IsGroups, colon_groups, join, groups_value,
  scanning, Runs-colon, room_step,
}
use protovalidate_cc.Ipv6.Outcome.{Result, ok, failed, bind}
use protovalidate_cc.Ipv6.Runs.{
  Runs, stop, fail, more, Runs-scan_loop, IsHexadecatet, hexadecatet_lt, round_hexadecatet,
  round_double_colon, round_single_colon, round_dotted,
}
use protovalidate_cc.Ipv6.{
  AddressScan, continue_with, break_with, return_false, shift_left, check_dotted, colons,
  hexadecatet, dotted, round, start, finish, parse_address_part, prefix_length_part,
  parse_ipv6_address, parse_ipv6_prefix,
}
use protovalidate_cc.Parser.Chars.{char, consume, consume_sequence}
use protovalidate_cc.Parser.Number.Loop.{Ends, digits_value_inv}
use protovalidate_cc.Parser.Number.{
  hexadecimal_digit_value, parse_hexadecimal_hexadecatet, decimal_digit_value,
}
use protovalidate_cc.Parser.Quad.Laws.{StartsQuad, quad_value, or_octets-quad_value}
use protovalidate_cc.Parser.Quad.{Quad, parse_quad, or_octets}

NoDots-check_dotted : (s : Bytes) → NoDots s → check_dotted s ≡ false
unfolding check_dotted
NoDots-check_dotted (a ∷ b ∷ c ∷ d ∷ s) h = ground (arith, h.1.0, h.1.1.0, h.1.1.1.0)
NoDots-check_dotted _ h = ground arith

NoDots-append : (s t : Bytes) → NoDots s → NoDots t → NoDots (s ++ t)
NoDots-append [] t h k = k
NoDots-append (c ∷ s) t h k = (h.0, NoDots-append s t h.1 k)

abbrev compressed : ℕ → ℕ → Bytes → AddressScan
compressed b i str = record { str = str; bits = 0; b = b; index = i; double_colon_found = true }

not_colon :
    (c e : ℕ) (rest : Bytes)
    → hexadecimal_digit_value c ≡ some e
    → (consume (char b':') (c ∷ rest)).0 ≡ false
unfolding consume char
not_colon c e rest h = ground (arith, hex_no_colon c e h)

no_third_colon :
    (text rest : Bytes) {v : ℕ}
    → IsHexadecatet v text
    → (consume (char b':') (text ++ rest)).0 ≡ false
no_third_colon [] rest h = absurd (omega (arith, h.some_digit))
no_third_colon (c ∷ text) rest h =
    let (d, found, _) = digits_value_inv 16 hexadecimal_digit_value 0 c text h.value in
    not_colon c d (text ++ rest) found

-- `::` at the start, in front of a hexadecatet
Runs-compressed :
    (text rest : Bytes) {v : ℕ} {r : Result AddressScan}
    → IsHexadecatet v text
    → Ends hexadecimal_digit_value rest
    → check_dotted (text ++ rest) ≡ false
    → Runs (compressed v 2 rest) r
    → Runs (start (b':' ∷ b':' ∷ (text ++ rest))) r
Runs-compressed text rest {v} {r} h ends no_quad run =
    more (omega arith)
      (round_double_colon 0 0 0 false (text ++ rest) (no_third_colon text rest h) (omega arith)
        refl)
      (more (omega arith) (round_hexadecatet 0 0 1 true text rest h ends no_quad)
        (rw (zero-bit_or v) run))

-- a round at the end of the address text
round_break :
    (s : AddressScan) (c : ℕ) (rest : Bytes)
    → s.str ≡ c ∷ rest
    → hexadecimal_digit_value c ≡ none
    → c ≢ b':'
    → check_dotted (c ∷ rest) ≡ false
    → round s ≡ break_with s
unfolding round hexadecatet colons consume_sequence consume char parse_hexadecimal_hexadecatet
round_break s c rest e h k no_quad = ground arith

-- A single colon behind the last hexadecatet is passed over, where a byte follows that ends the
-- address: only a colon at the very end of the view is refused.
part_trailing_colon :
    (text tail : Bytes) (c : ℕ) {v : ℕ}
    → IsHexadecatet v text
    → hexadecimal_digit_value c ≡ none
    → c ≢ b':'
    → NoDots (c ∷ tail)
    → parse_address_part (b':' ∷ b':' ∷ (text ++ (b':' ∷ c ∷ tail))) ≡ ok (v, c ∷ tail)
unfolding parse_address_part finish
part_trailing_colon text tail c {v} h stops ne dots =
    let str : Bytes = b':' ∷ b':' ∷ (text ++ (b':' ∷ c ∷ tail)) in
    let no_quad =
      NoDots-check_dotted (text ++ (b':' ∷ c ∷ tail))
        (NoDots-append text _ (hex-NoDots text 0 h.value) (refl, dots)) in
    let run = Runs-compressed text (b':' ∷ c ∷ tail) h (colon_stops (c ∷ tail)) no_quad (
      more (omega arith) (round_single_colon 0 v 2 true c tail ne (omega arith)) (
        stop (omega arith) (
          round_break (compressed v 2 (c ∷ tail)) c tail refl stops ne
            (NoDots-check_dotted (c ∷ tail) dots)))) in
    rw (Runs-scan_loop (suc (length str)) run (omega arith)) (rw zero-bit_or)

slash_no_digit : hexadecimal_digit_value b'/' ≡ none
unfolding hexadecimal_digit_value
slash_no_digit = refl

-- A prefix whose address is `::`, a hexadecatet and a single colon, as in `::1:/64`, is
-- accepted, where no dot stands in the length.
pub trailing_colon_prefix :
    (text tail : Bytes) (v len : ℕ)
    → IsHexadecatet v text
    → NoDots tail
    → prefix_length_part (b'/' ∷ tail) ≡ some len
    → parse_ipv6_prefix (b':' ∷ b':' ∷ (text ++ (b':' ∷ b'/' ∷ tail)))
      ≡ ok (record { bits = v; prefix_length = len })
unfolding parse_ipv6_prefix
trailing_colon_prefix text tail v len h dots l =
    rw (part_trailing_colon text tail b'/' h slash_no_digit (λ e. omega arith) (refl, dots))
      (rw (l, bind))

-- Where a decimal digit does not go on to a dot there is no dotted quad.
no_quad_at_colon :
    (c d : ℕ) (tail : Bytes)
    → hexadecimal_digit_value c ≡ some d
    → parse_quad (c ∷ b':' ∷ tail) ≡ none
unfolding parse_quad decimal_digit_value hexadecimal_digit_value
no_quad_at_colon c d tail h = ground arith

dotted_fails :
    (s : AddressScan) (c e d : ℕ) (tail : Bytes)
    → s.str ≡ c ∷ b':' ∷ d ∷ b'.' ∷ tail
    → s.double_colon_found ≡ true
    → hexadecimal_digit_value c ≡ some e
    → 3 ≤ length tail
    → round s ≡ return_false
unfolding round dotted check_dotted
dotted_fails s c e d tail str found digit long =
    ground (arith, no_quad_at_colon c e (d ∷ b'.' ∷ tail) digit, hex_no_colon c e digit)

-- An address that starts with `::`, one hexadecimal digit, a colon, one byte and a dot, with
-- three bytes or more behind, as `::a:1.2.3.4`, is refused.
pub one_digit_refused :
    (c e d : ℕ) (tail : Bytes)
    → hexadecimal_digit_value c ≡ some e
    → 3 ≤ length tail
    → parse_ipv6_address (b':' ∷ b':' ∷ c ∷ b':' ∷ d ∷ b'.' ∷ tail) ≡ failed
unfolding parse_ipv6_address parse_address_part
one_digit_refused c e d tail digit long =
    let rest : Bytes = c ∷ b':' ∷ d ∷ b'.' ∷ tail in
    let str : Bytes = b':' ∷ b':' ∷ rest in
    let run : Runs (start str) failed =
      more (omega arith)
        (round_double_colon 0 0 0 false rest (not_colon c e (b':' ∷ d ∷ b'.' ∷ tail) digit)
          (omega arith) refl)
        (fail (omega arith) (dotted_fails (compressed 0 1 rest) c e d tail refl refl digit long)) in
    rw (Runs-scan_loop (suc (length str)) run (omega arith)) refl

round_open :
    (i j : ℕ)
    → i ≤ 5
    → i + 1 ≡ j
    → (g : Group) (rest : Bytes) (b k : ℕ) → IsHexadecatet g.value g.text
    → Ends hexadecimal_digit_value rest
    → (b + 1) * 65536 ^ suc k ≤ 2 ^ 128
    → round (scanning b i (g.text ++ rest)) ≡ continue_with (scanning (b * 2 ^ 16 + g.value) j rest)
round_open i j few next g rest b k h ends room =
    round_hexadecatet 0 b i false g.text rest h ends (ground arith)
    ∙ cc ((room_step k b g.value (hexadecatet_lt g.text h) room).0, next)

-- Groups in front of the seventh, with whatever the loop does behind them.
Runs-open :
    (gs : List Group) (g : Group) (rest : Bytes) (b i j : ℕ) {r : Result AddressScan}
    → i + length gs ≤ 5
    → i + length gs + 1 ≡ j
    → IsGroups (g ∷ gs)
    → Ends hexadecimal_digit_value rest
    → (b + 1) * 65536 ^ length (g ∷ gs) ≤ 2 ^ 128
    → Runs (scanning (groups_value b (g ∷ gs)) j rest) r
    → Runs (scanning b i (join g gs rest)) r
Runs-open [] g rest b i j few next h ends room run =
    more (omega arith) (round_open i j (omega arith) (omega arith) g rest b 0 h.0 ends room) run
Runs-open (g' ∷ gs) g rest b i j few next h ends room run =
    more (omega arith)
      (round_open i (i + 1) (omega arith) refl g (colon_groups (g' ∷ gs) rest) b (length (g' ∷ gs))
        h.0 (colon_stops (g'.text ++ colon_groups gs rest)) room)
      (Runs-colon _ (i + 1) g'.text (colon_groups gs rest) h.1.0 (omega arith) (omega arith) (
        Runs-open gs g' rest _ (i + 1) j (omega arith) (omega arith) h.1 ends
          (room_step (length (g' ∷ gs)) b g.value (hexadecatet_lt g.text h.0) room).1 run))

groups_value-lt :
    (gs : List Group) (acc : ℕ) → IsGroups gs → groups_value acc gs < (acc + 1) * 65536 ^ length gs
groups_value-lt [] acc h = omega arith
groups_value-lt (g ∷ gs) acc (h, hs) =
    let ih = groups_value-lt gs (acc * 2 ^ 16 + g.value) hs in
    let small = hexadecatet_lt g.text h in
    let grows : acc * 2 ^ 16 + g.value + 1 ≤ (acc + 1) * 65536 = omega arith in
    rw (pow-suc 65536 (length gs)) (omega (arith, ih, mul-le-mul_right (65536 ^ length gs) grows))

dotted_no_colon : (s : Bytes) → check_dotted s ≡ true → (consume (char b':') s).0 ≡ false
unfolding check_dotted consume char
dotted_no_colon [] h = refl
dotted_no_colon (c ∷ s) h = ground arith

-- Six groups, `::` and a dotted quad that `checkDotted` sees are accepted, though they leave the
-- `::` no group to stand for.
pub compressed_nothing :
    (g : Group) (gs : List Group) (quad_text : Bytes) (q : Quad)
    → length gs ≡ 5
    → IsGroups (g ∷ gs)
    → check_dotted quad_text ≡ true
    → StartsQuad quad_text q []
    → parse_ipv6_address (join g gs (b':' ∷ b':' ∷ quad_text))
      ≡ ok (record { bits = groups_value 0 (g ∷ gs) * 2 ^ 32 + quad_value q })
unfolding parse_ipv6_address parse_address_part finish
compressed_nothing g gs quad_text q e h seen quad =
    let str : Bytes = join g gs (b':' ∷ b':' ∷ quad_text) in
    let high = groups_value 0 (g ∷ gs) in
    let len : length (g ∷ gs) ≡ 6 = omega arith in
    let high_lt : high < 2 ^ 96 = rw len at (groups_value-lt (g ∷ gs) 0 h) in
    let shifted : bit_or 0 (shift_left high 32) ≡ high * 2 ^ 32 =
      zero-bit_or (shift_left high 32) ∙ mod-eq_of_lt (omega arith) in
    let bits =
      ap (λ x. or_octets x q) shifted
      ∙ or_octets-quad_value high q quad.octet0.1 quad.octet1.1 quad.octet2.1 quad.octet3.1 in
    let run =
      Runs-open gs g (b':' ∷ b':' ∷ quad_text) 0 0 6 (omega arith) (omega arith) h
        (colon_stops (b':' ∷ quad_text)) (rw len (omega arith))
        (more (omega arith)
          (round_double_colon 0 high 6 false quad_text (dotted_no_colon quad_text seen)
            (omega arith) refl)
          (stop (omega arith)
            (round_dotted (bit_or 0 (shift_left high 32)) 0 7 true quad_text [] q seen quad))) in
    rw (Runs-scan_loop (suc (length str)) run (omega arith)) (rw bit_or-zero (rw bits))
