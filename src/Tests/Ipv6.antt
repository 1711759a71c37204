-- ===== src/Tests/Ipv6.antt =====
-- IPv6 addresses and prefixes at concrete inputs, from ipv6_test.cc, and inputs on which the code
-- and RFC 4291 differ.
use protovalidate_cc.Base.{
  ℕ, ◌↔◌, ◌≡◌, ◌≢◌, ◌≤◌, true, some, length, ◌-◌, ◌+◌, ◌*◌, ◌%◌, ◌^◌, bit_and, refl, List, [], ◌∷◌,
  arith, Bytes, codes,
}
use protovalidate_cc.Ipv6.Bounds.{PrefixFits, parse_ipv6_prefix-PrefixFits}
use protovalidate_cc.Ipv6.Defects.{trailing_colon_prefix, one_digit_refused, compressed_nothing}
use protovalidate_cc.Ipv6.Fuel.{parse_ipv6-terminates}
use protovalidate_cc.Ipv6.Full.{Group, IsGroups, groups_value, parse_ipv6_address-full}
use protovalidate_cc.Ipv6.Full.Prefix.{IsLengthPart, parse_ipv6_prefix-IsLengthPart}
use protovalidate_cc.Ipv6.Mask.{ipv6_mask_lem, ipv6_host_bits}
use protovalidate_cc.Ipv6.Outcome.{ok, failed, out_of_fuel}
use protovalidate_cc.Ipv6.Runs.{IsHexadecatet}
use protovalidate_cc.Ipv6.{
  Ipv6Prefix, mask, optional_zone, prefix_length_part, check_dotted, parse_ipv6_address,
  parse_ipv6_prefix,
}
use protovalidate_cc.Parser.Number.{decimal_digit_value, hexadecimal_digit_value}
use protovalidate_cc.Parser.Number.Hexadecimal.{hexadecimal_value}
use protovalidate_cc.Parser.Number.Loop.{digits_value}
use protovalidate_cc.Parser.Quad.Laws.{StartsQuad, quad_value}
use protovalidate_cc.Parser.Quad.{Quad}

abbrev group : Bytes → ℕ → Group
group text value = record { text = text; value = value }

abbrev documentation : Ipv6Prefix
documentation = record { bits = 0x20010db8000000000000000000000001; prefix_length = 32 }

runs :
    (parse_ipv6_address (codes "::1") ≡ ok (record { bits = 1 }))
    × (parse_ipv6_address (codes "1:2:3:4:5:6:7:8:9") ≡ failed)
    × (parse_ipv6_address (codes "::1:") ≡ failed)
    × (parse_ipv6_address (codes "1::ffff:127.0.0.1")
        ≡ ok (record { bits = 2 ^ 112 + 0xffff7f000001 }))
    × (parse_ipv6_address (codes "1:2:3:4:5:6::1.2.3.4")
        ≡ ok (record { bits = 0x00010002000300040005000601020304 }))
    × (parse_ipv6_prefix (codes "2001:db8::1/32") ≡ ok documentation)
    × (parse_ipv6_prefix (codes "::1:/64") ≡ ok (record { bits = 1; prefix_length = 64 }))
unfolding parse_ipv6_address parse_ipv6_prefix
runs = (refl, refl, refl, refl, refl, refl, refl)

abbrev first_group : Group
first_group = group (codes "2001") 0x2001

abbrev more_groups : List Group
more_groups =
    group (codes "db8") 0xdb8
    ∷ group (codes "0") 0
    ∷ group (codes "00") 0
    ∷ group (codes "0") 0
    ∷ group (codes "0") 0
    ∷ group (codes "0") 0
    ∷ group (codes "1") 1
    ∷ []

hexadecatet :
    {v : ℕ} {text : Bytes}
    → hexadecimal_value 0 text ≡ some v
    → 1 ≤ length text
    → length text ≤ 4
    → IsHexadecatet v text
hexadecatet h k l = record { some_digit = k; few = l; value = h }

more_groups-IsGroups : IsGroups (first_group ∷ more_groups)
unfolding digits_value hexadecimal_digit_value
more_groups-IsGroups = (
  hexadecatet refl (omega arith) (omega arith),
  (
    hexadecatet refl (omega arith) (omega arith),
    (
      hexadecatet refl (omega arith) (omega arith),
      (
        hexadecatet refl (omega arith) (omega arith),
        (
          hexadecatet refl (omega arith) (omega arith),
          (
            hexadecatet refl (omega arith) (omega arith),
            (
              hexadecatet refl (omega arith) (omega arith),
              (hexadecatet refl (omega arith) (omega arith), tt),
            ),
          ),
        ),
      ),
    ),
  ),
)

zone_rest : optional_zone (codes "%eth0") ≡ true
unfolding optional_zone
zone_rest = refl

parse_ipv6_address-full_example :
    parse_ipv6_address (codes "2001:db8:0:00:0:0:0:1%eth0")
    ≡ ok (record { bits = 0x20010db8000000000000000000000001 })
unfolding hexadecimal_digit_value
parse_ipv6_address-full_example =
    parse_ipv6_address-full first_group more_groups (codes "%eth0") refl more_groups-IsGroups
      (refl, refl) zone_rest

parse_ipv6_prefix-IsLengthPart_example :
    (parse_ipv6_prefix (codes "2001:db8:0:00:0:0:0:1/32") ≡ ok documentation) ↔ (
      (0x20010db8000000000000000000000001 ≡ groups_value 0 (first_group ∷ more_groups))
      × IsLengthPart 32 (codes "/32"))
unfolding hexadecimal_digit_value
parse_ipv6_prefix-IsLengthPart_example =
    parse_ipv6_prefix-IsLengthPart first_group more_groups (codes "/32")
      0x20010db8000000000000000000000001 32 refl more_groups-IsGroups (refl, refl)

parse_ipv6-terminates_example :
    (parse_ipv6_address (codes "::1") ≢ out_of_fuel)
    × (parse_ipv6_prefix (codes "::1") ≢ out_of_fuel)
parse_ipv6-terminates_example = parse_ipv6-terminates (codes "::1")

parse_ipv6_prefix-PrefixFits_example : PrefixFits (parse_ipv6_prefix (codes "::/128"))
parse_ipv6_prefix-PrefixFits_example = parse_ipv6_prefix-PrefixFits (codes "::/128")

ipv6_mask_lem_example : mask documentation ≡ 2 ^ 128 - 2 ^ 96
ipv6_mask_lem_example = ipv6_mask_lem documentation (omega arith)

ipv6_host_bits_example :
    bit_and documentation.bits (2 ^ 128 - 1 - mask documentation) ≡ documentation.bits % 2 ^ 96
ipv6_host_bits_example = ipv6_host_bits documentation (omega arith)

one_IsHexadecatet : IsHexadecatet 1 (codes "1")
unfolding digits_value hexadecimal_digit_value
one_IsHexadecatet = hexadecatet refl (omega arith) (omega arith)

length_64 : prefix_length_part (codes "/64") ≡ some 64
unfolding prefix_length_part
length_64 = refl

trailing_colon_prefix_example :
    parse_ipv6_prefix (codes "::1:/64") ≡ ok (record { bits = 1; prefix_length = 64 })
trailing_colon_prefix_example =
    trailing_colon_prefix (codes "1") (codes "64") 1 64 one_IsHexadecatet (refl, (refl, tt))
      length_64

one_digit_refused_example : parse_ipv6_address (codes "::a:1.2.3.4") ≡ failed
unfolding hexadecimal_digit_value
one_digit_refused_example = one_digit_refused b'a' 10 b'1' (codes "2.3.4") refl (omega arith)

abbrev five_groups : List Group
five_groups =
    group (codes "2") 2
    ∷ group (codes "3") 3
    ∷ group (codes "4") 4
    ∷ group (codes "5") 5
    ∷ group (codes "6") 6
    ∷ []

five_groups-IsGroups : IsGroups (group (codes "1") 1 ∷ five_groups)
unfolding digits_value hexadecimal_digit_value
five_groups-IsGroups = (
  hexadecatet refl (omega arith) (omega arith),
  (
    hexadecatet refl (omega arith) (omega arith),
    (
      hexadecatet refl (omega arith) (omega arith),
      (
        hexadecatet refl (omega arith) (omega arith),
        (
          hexadecatet refl (omega arith) (omega arith),
          (hexadecatet refl (omega arith) (omega arith), tt),
        ),
      ),
    ),
  ),
)

abbrev quad : Quad
quad = record { o0 = 1; o1 = 2; o2 = 3; o3 = 4 }

quad-StartsQuad : StartsQuad (codes "1.2.3.4") quad []
unfolding decimal_digit_value
quad-StartsQuad = record {
  t0 = codes "1";
  t1 = codes "2";
  t2 = codes "3";
  t3 = codes "4";
  splits = refl;
  octet0 = (refl, omega arith);
  octet1 = (refl, omega arith);
  octet2 = (refl, omega arith);
  octet3 = (refl, omega arith);
  ends = tt;
}

quad_seen : check_dotted (codes "1.2.3.4") ≡ true
unfolding check_dotted
quad_seen = refl

compressed_nothing_example :
    parse_ipv6_address (codes "1:2:3:4:5:6::1.2.3.4")
    ≡ ok (record { bits = 0x000100020003000400050006 * 2 ^ 32 + quad_value quad })
compressed_nothing_example =
    compressed_nothing (group (codes "1") 1) five_groups (codes "1.2.3.4") quad refl
      five_groups-IsGroups quad_seen quad-StartsQuad
