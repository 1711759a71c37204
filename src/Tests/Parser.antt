-- ===== src/Tests/Parser.antt =====
-- The number parsers at concrete inputs.
use protovalidate_cc.Base.{◌≡◌, ◌↔◌, ◌+◌, ◌*◌, ◌^◌, some, arith, codes}
use protovalidate_cc.Parser.Number.Decimal.{IsMax, StartsDecimal, parse_decimal_number_iff}
use protovalidate_cc.Parser.Number.Hexadecimal.{StartsHexadecimal, parse_hexadecimal_number_iff}
use protovalidate_cc.Parser.Number.{
  calculate_decimal_digits, calculate_hexadecimal_digits, parse_decimal_number,
  parse_hexadecimal_number,
}
use protovalidate_cc.Parser.Quad.Laws.{StartsQuad, quad_value, parse_quad_iff, or_octets-quad_value}
use protovalidate_cc.Parser.Quad.{Quad, parse_quad, or_octets}

octet_IsMax : IsMax 255
unfolding calculate_decimal_digits
octet_IsMax = record { few = omega arith; some_digit = omega arith; below = omega arith }

parse_decimal_number_iff_example :
    (parse_decimal_number 255 (codes "192.0") ≡ some (192, codes ".0"))
    ↔ StartsDecimal 255 (codes "192.0") 192 (codes ".0")
parse_decimal_number_iff_example =
    parse_decimal_number_iff 255 octet_IsMax (codes "192.0") 192 (codes ".0")

parse_hexadecimal_number_iff_example :
    (parse_hexadecimal_number 0xffff 1 (codes "db8:1") ≡ some (0xdb8, codes ":1"))
    ↔ StartsHexadecimal 0xffff 1 (codes "db8:1") 0xdb8 (codes ":1")
unfolding calculate_hexadecimal_digits
parse_hexadecimal_number_iff_example =
    parse_hexadecimal_number_iff 0xffff 1 (omega arith) (codes "db8:1") 0xdb8 (codes ":1")

abbrev loopback : Quad
loopback = record { o0 = 127; o1 = 0; o2 = 0; o3 = 1 }

parse_quad_iff_example :
    (parse_quad (codes "127.0.0.1/8") ≡ some (loopback, codes "/8"))
    ↔ StartsQuad (codes "127.0.0.1/8") loopback (codes "/8")
parse_quad_iff_example = parse_quad_iff (codes "127.0.0.1/8") loopback (codes "/8")

or_octets-quad_value_example :
    or_octets (0xffff * 2 ^ 32) loopback ≡ 0xffff * 2 ^ 32 + quad_value loopback
or_octets-quad_value_example =
    or_octets-quad_value 0xffff loopback (omega arith) (omega arith) (omega arith) (omega arith)
