-- ===== src/Ipv6.antt =====
-- buf/validate/internal/lib/ipv6.h and ipv6.cc: IPv6 addresses and prefixes.
-- An address is its `std::bitset<128>`, as a number.
pub mod Outcome
pub mod Fuel
pub mod Bounds
pub mod Mask
pub mod Runs
pub mod Full
pub mod Defects
use protovalidate_cc.Base.{
  ℕ, zero, suc, ◌+◌, ◌-◌, ◌*◌, ◌%◌, ◌^◌, bit_or, Bool, true, false, not, ◌&&◌, ◌||◌, Option, none,
  some, List, [], ◌∷◌, ◌==◌, ltb, leb, if◌then◌else◌, Bytes, length, get_elem?,
}
use protovalidate_cc.Parser.Chars.{char, consume, consume_sequence}
use protovalidate_cc.Parser.Number.{parse_decimal_number, parse_hexadecimal_hexadecatet}
use protovalidate_cc.Parser.Quad.{Quad, parse_quad, or_octets}
use Outcome.{Result, ok, failed, out_of_fuel, bind}

abbrev pub bits_count : ℕ
bits_count = 128

abbrev pub hexadecatets_count : ℕ
hexadecatets_count = 8

pub record Ipv6Address : Type 0 where
  pub bits : ℕ

-- `struct IPv6Prefix : public IPv6Address`
pub record Ipv6Prefix : Type 0 where
  pub bits : ℕ
  pub prefix_length : ℕ

-- `<<` of a bitset drops what leaves its 128 bits
abbrev pub shift_left : ℕ → ℕ → ℕ
shift_left b n = b * 2 ^ n % 2 ^ bits_count

-- `std::bitset<bits_count>{}.set() << (bits_count - prefixLength)`
unfoldable pub mask : Ipv6Prefix → ℕ
mask p = shift_left (2 ^ bits_count - 1) (bits_count - p.prefix_length)

-- the two `operator==`
unfoldable pub eq_address : Ipv6Address → Ipv6Address → Bool
eq_address a b = a.bits == b.bits

unfoldable pub eq_prefix : Ipv6Prefix → Ipv6Prefix → Bool
eq_prefix a b = a.bits == b.bits && a.prefix_length == b.prefix_length

unfoldable pub zone_loop : Bytes → Bool × Bytes
zone_loop [] = (true, [])
zone_loop (c ∷ cs) = if c == 0 then (false, c ∷ cs) else zone_loop cs

-- any bytes but NUL, at least one
unfoldable pub consume_zone_id : Bytes → Bool × Bytes
unfolding zone_loop
consume_zone_id [] = (false, [])
consume_zone_id (c ∷ cs) = zone_loop (c ∷ cs)

-- `str[i] == c`, for an `i` inside
abbrev pub at_is : Bytes → ℕ → ℕ → Bool
at_is str i c = elim (get_elem? str i) [ none ↦ false | some x ↦ x == c ]

-- a view shorter than "0.0.0.0" holds no dotted quad
unfoldable pub check_dotted : Bytes → Bool
check_dotted str =
    if ltb (length str) 7
    then false
    else not (at_is str 0 b':') && (at_is str 1 b'.' || at_is str 2 b'.' || at_is str 3 b'.')

-- The variables of `parseAddressPart`, with the members `str` and `bits`.
pub record AddressScan : Type 0 where
  pub str : Bytes
  pub bits : ℕ
  pub b : ℕ
  pub index : ℕ
  pub double_colon_found : Bool

-- What one round of its loop does.
pub data Round : Type 0 where
  continue_with break_with : AddressScan → Round
  return_false : Round

-- behind `::`, which left `rest`
unfoldable pub double_colon : AddressScan → Bytes → Round
unfolding consume char
double_colon s rest =
    if (consume (char b':') rest).0
    then return_false
    else if ltb (hexadecatets_count - 1) s.index || s.double_colon_found
    then return_false
    else continue_with (record {
      str = rest;
      bits = bit_or s.bits (shift_left s.b ((hexadecatets_count - s.index) * 16));
      b = 0;
      index = s.index + 1;
      double_colon_found = true;
    })

-- behind one `:`, which left `rest`
unfoldable pub single_colon : AddressScan → Bytes → Round
single_colon s [] = return_false
single_colon s (c ∷ cs) =
    if s.index == 0 then return_false else continue_with (record s { str = c ∷ cs })

-- the branches of a round where no hexadecatet is read
unfoldable pub colons : AddressScan → Round
unfolding double_colon single_colon consume_sequence consume char
colons s =
    let two = consume_sequence (b':' ∷ b':' ∷ []) s.str in
    let one = consume (char b':') s.str in
    if two.0 then double_colon s two.1 else if one.0 then single_colon s one.1 else break_with s

unfoldable pub dotted : AddressScan → Round
unfolding parse_quad or_octets
dotted s = elim (parse_quad s.str) [
  | none ↦ return_false
  | some (q, rest) ↦ break_with (record s {
    str = rest;
    bits = or_octets s.bits q;
    b = shift_left s.b 32;
    index = s.index + 2;
  })
]

unfoldable pub hexadecatet : AddressScan → Round
unfolding parse_hexadecimal_hexadecatet colons
hexadecatet s = elim (parse_hexadecimal_hexadecatet s.str) [
  | none ↦ colons s
  | some (value, rest) ↦
      continue_with
        (record s { str = rest; b = bit_or (shift_left s.b 16) value; index = s.index + 1 })
]

unfoldable pub round : AddressScan → Round
unfolding check_dotted dotted hexadecatet
round s =
    if (s.double_colon_found || s.index == hexadecatets_count - 2) && check_dotted s.str
    then dotted s
    else hexadecatet s

-- The loop. A round that continues has consumed a byte, so the length of `str` bounds the rounds.
unfoldable pub scan_loop : ℕ → AddressScan → Result AddressScan
scan_loop zero s = out_of_fuel
scan_loop (suc fuel) s = elim (ltb s.index hexadecatets_count) [
  | false ↦ ok s
  | true ↦ elim (round s) [
    | continue_with t ↦ scan_loop fuel t
    | break_with t ↦ ok t
    | return_false ↦ failed
  ]
]

abbrev pub start : Bytes → AddressScan
start str = record { str = str; bits = 0; b = 0; index = 0; double_colon_found = false }

-- behind the loop: `bits |= b`, and the test of the result
unfoldable pub finish : AddressScan → Result (ℕ × Bytes)
finish s =
    if s.double_colon_found || s.index == hexadecatets_count
    then ok (bit_or s.bits s.b, s.str)
    else failed

-- `bits` and the view behind the address
unfoldable pub parse_address_part : Bytes → Result (ℕ × Bytes)
unfolding scan_loop round finish
parse_address_part str = bind (scan_loop (suc (length str)) (start str)) finish

-- `(!consume<Char<'%'>>() || consumeZoneId()) && str.empty()`
unfoldable pub optional_zone : Bytes → Bool
unfolding consume char consume_zone_id
optional_zone str =
    let percent = consume (char b'%') str in
    let zone = consume_zone_id percent.1 in
    if percent.0 then zone.0 && length zone.1 == 0 else length str == 0

-- `consume<Char<'/'>>() && consumePrefixLength() && str.empty()`
unfoldable pub prefix_length_part : Bytes → Option ℕ
unfolding consume char parse_decimal_number
prefix_length_part str =
    let slash = consume (char b'/') str in
    if slash.0
    then elim (parse_decimal_number bits_count slash.1) [
      | none ↦ none
      | some (len, rest) ↦ if length rest == 0 then some len else none
    ]
    else none

unfoldable pub parse_ipv6_address : Bytes → Result Ipv6Address
unfolding parse_address_part optional_zone
parse_ipv6_address str =
    bind (parse_address_part str)
      λ (bits, rest). if optional_zone rest then ok (record { bits = bits }) else failed

unfoldable pub parse_ipv6_prefix : Bytes → Result Ipv6Prefix
unfolding parse_address_part prefix_length_part
parse_ipv6_prefix str = bind (parse_address_part str) λ (bits, rest).
    elim (prefix_length_part rest) [
      | none ↦ failed
      | some len ↦ ok (record { bits = bits; prefix_length = len })
    ]
