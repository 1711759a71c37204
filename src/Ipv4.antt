-- ===== src/Ipv4.antt =====
-- buf/validate/internal/lib/ipv4.h and ipv4.cc: IPv4 addresses and prefixes.
-- An address is its `uint32_t bits`, most significant octet first.
pub mod Laws
pub mod Mask
use protovalidate_cc.Base.{
  ℕ, ◌+◌, ◌-◌, ◌*◌, ◌%◌, ◌^◌, Bool, true, false, ◌&&◌, Option, none, some, ◌==◌, if◌then◌else◌,
  Bytes,
}
use protovalidate_cc.Parser.Chars.{char, consume}
use protovalidate_cc.Parser.Number.{parse_decimal_number}
use protovalidate_cc.Parser.Quad.{Quad, parse_quad, or_octets}
use protovalidate_cc.Parser.State.{M, pure, ◌>>=◌, ◌>>◌, expect, end}

abbrev pub bits_count : ℕ
bits_count = 32

pub record Ipv4Address : Type 0 where
  pub bits : ℕ

-- `struct IPv4Prefix : public IPv4Address`
pub record Ipv4Prefix : Type 0 where
  pub bits : ℕ
  pub prefix_length : ℕ

-- `~0UL << (bits_count - prefixLength)` on 64 bits, cut to the `uint32_t` that is returned
unfoldable pub mask : Ipv4Prefix → ℕ
mask p =
    if p.prefix_length == 0
    then 0
    else (2 ^ 64 - 1) * 2 ^ (bits_count - p.prefix_length) % 2 ^ 64 % 2 ^ 32

-- the two `operator==`
unfoldable pub eq_address : Ipv4Address → Ipv4Address → Bool
eq_address a b = a.bits == b.bits

unfoldable pub eq_prefix : Ipv4Prefix → Ipv4Prefix → Bool
eq_prefix a b = a.bits == b.bits && a.prefix_length == b.prefix_length

-- The methods of `IPv4Parser`. The view is the state of the chain; `bits` and `prefixLength` are
-- passed on.
unfoldable pub parse_prefix_length : M ℕ
unfolding parse_decimal_number
parse_prefix_length = parse_decimal_number bits_count

-- `bits` in, `bits` out
unfoldable pub parse_address_part : ℕ → M ℕ
unfolding parse_quad or_octets
parse_address_part bits = do octets ← parse_quad; pure (or_octets bits octets)

unfoldable pub parse_address : ℕ → M ℕ
unfolding parse_address_part
parse_address bits = do bits ← parse_address_part bits; end; pure bits

unfoldable pub parse_prefix : ℕ → M Ipv4Prefix
unfolding parse_address_part parse_prefix_length consume char
parse_prefix bits = do
  bits ← parse_address_part bits
  expect (char b'/')
  len ← parse_prefix_length
  end
  pure (record { bits = bits; prefix_length = len })

-- `IPv4Parser address{str}` zeroes `bits` and `prefixLength`.
unfoldable pub parse_ipv4_address : Bytes → Option Ipv4Address
unfolding parse_address
parse_ipv4_address str = elim (parse_address 0 str) [
  | none ↦ none
  | some (bits, _) ↦ some (record { bits = bits })
]

unfoldable pub parse_ipv4_prefix : Bytes → Option Ipv4Prefix
unfolding parse_prefix
parse_ipv4_prefix str = elim (parse_prefix 0 str) [ none ↦ none | some (p, _) ↦ some p ]
