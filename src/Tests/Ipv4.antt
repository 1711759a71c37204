-- ===== src/Tests/Ipv4.antt =====
-- IPv4 addresses and prefixes at concrete inputs, from ipv4_test.cc.
use protovalidate_cc.Base.{◌≡◌, ◌↔◌, ◌-◌, ◌%◌, ◌^◌, bit_and, refl, none, some, arith, codes}
use protovalidate_cc.Ipv4.Laws.{
  IsAddressText, IsPrefixText, parse_ipv4_address_iff, parse_ipv4_prefix_iff,
}
use protovalidate_cc.Ipv4.Mask.{ipv4_mask_lem, ipv4_host_bits}
use protovalidate_cc.Ipv4.{Ipv4Address, Ipv4Prefix, mask, parse_ipv4_address, parse_ipv4_prefix}

abbrev loopback : Ipv4Address
loopback = record { bits = 0x7f000001 }

abbrev ten : Ipv4Prefix
ten = record { bits = 0x0a000001; prefix_length = 8 }

runs :
    (parse_ipv4_address (codes "127.0.0.1") ≡ some loopback)
    × (parse_ipv4_address (codes "127.0.0.01") ≡ none)
    × (parse_ipv4_address (codes "127.0.0.256") ≡ none)
    × (parse_ipv4_address (codes "127.0.0.1 ") ≡ none)
    × (parse_ipv4_prefix (codes "10.0.0.1/8") ≡ some ten)
    × (parse_ipv4_prefix (codes "10.0.0.0/33") ≡ none)
unfolding parse_ipv4_address parse_ipv4_prefix
runs = (refl, refl, refl, refl, refl, refl)

parse_ipv4_address_iff_example :
    (parse_ipv4_address (codes "127.0.0.1") ≡ some loopback)
    ↔ IsAddressText 0x7f000001 (codes "127.0.0.1")
parse_ipv4_address_iff_example = parse_ipv4_address_iff (codes "127.0.0.1") loopback

parse_ipv4_prefix_iff_example :
    (parse_ipv4_prefix (codes "10.0.0.1/8") ≡ some ten) ↔ IsPrefixText ten (codes "10.0.0.1/8")
parse_ipv4_prefix_iff_example = parse_ipv4_prefix_iff (codes "10.0.0.1/8") ten

ipv4_mask_lem_example : mask ten ≡ 2 ^ 32 - 2 ^ 24
ipv4_mask_lem_example = ipv4_mask_lem ten (omega arith)

ipv4_host_bits_example : bit_and 0x0a000001 (2 ^ 32 - 1 - mask ten) ≡ 0x0a000001 % 2 ^ 24
ipv4_host_bits_example = ipv4_host_bits ten (omega arith)
