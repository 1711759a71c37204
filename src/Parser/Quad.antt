-- ===== src/Parser/Quad.antt =====
-- The dotted quad of decimal octets. IPv4Parser::parseAddressPart (ipv4.cc) and
-- IPv6Parser::parseDotted (ipv6.cc) are the same code, which `or_octets` and `parse_quad` model.
pub mod Laws
use protovalidate_cc.Base.{ℕ, ◌*◌, ◌^◌, bit_or, Bytes}
use protovalidate_cc.Parser.Chars.{char, consume}
use protovalidate_cc.Parser.Number.{parse_decimal_octet}
use protovalidate_cc.Parser.State.{M, pure, ◌>>=◌, ◌>>◌, expect}

abbrev pub dot : M (Unit {0})
dot = expect (char b'.')

-- `std::array<uint8_t, 4> octets`
pub record Quad : Type 0 where
  pub o0 : ℕ
  pub o1 : ℕ
  pub o2 : ℕ
  pub o3 : ℕ

-- `parseDecimalOctet(octet) && consume<Char<'.'>>()`
unfoldable pub octet_dot : M ℕ
unfolding parse_decimal_octet consume char
octet_dot = do v ← parse_decimal_octet; dot; pure v

unfoldable pub parse_quad : M Quad
unfolding octet_dot
parse_quad = do
  a ← octet_dot
  b ← octet_dot
  c ← octet_dot
  d ← parse_decimal_octet
  pure (record { o0 = a; o1 = b; o2 = c; o3 = d })

-- `bits |= octets[0] << 24` down to `bits |= octets[3]`
unfoldable pub or_octets : ℕ → Quad → ℕ
or_octets bits q =
    bit_or (bit_or (bit_or (bit_or bits (q.o0 * 2 ^ 24)) (q.o1 * 2 ^ 16)) (q.o2 * 2 ^ 8)) q.o3
