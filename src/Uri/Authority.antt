-- ===== src/Uri/Authority.antt =====
-- The authority of uri.cc: user info, host, port, and IP literals.
pub mod Literal
pub mod Sound
use protovalidate_cc.Base.{
  ℕ, Bool, true, false, not, ◌||◌, ◌&&◌, List, [], ◌∷◌, ◌==◌, if◌then◌else◌, Bytes,
}
use protovalidate_cc.Parser.Chars.{num, char, concat_ranges, consume}
use protovalidate_cc.Uri.Percent.{consume_percent_encoded, consume_percent_encoded_utf8_code_point}
use protovalidate_cc.Uri.Steps.{
  Method, ◌&&&◌, ◌|||◌, restoring, test, peek, skip, unreserved, sub_delims,
}
use Literal.{consume_ip_literal}

unfoldable pub is_authority_end : Bytes → Bool
is_authority_end [] = true
is_authority_end (c ∷ s) = c == b'?' || c == b'#' || c == b'/'

unfoldable pub consume_user_info : Method
unfolding skip consume unreserved sub_delims char concat_ranges consume_percent_encoded
consume_user_info = restoring λ s. test (peek b'@') (
    skip
      (consume (concat_ranges (unreserved ∷ sub_delims ∷ char b':' ∷ []))
        ||| consume_percent_encoded)
      s)

unfoldable pub consume_reg_name : Method
unfolding skip consume unreserved sub_delims concat_ranges consume_percent_encoded_utf8_code_point
    is_authority_end
consume_reg_name = restoring λ s.
    test (λ t. peek b':' t || is_authority_end t)
      (skip
        (consume (concat_ranges (unreserved ∷ sub_delims ∷ []))
          ||| consume_percent_encoded_utf8_code_point)
        s)

unfoldable pub consume_host : Method
unfolding consume_ip_literal consume_reg_name
consume_host = (test (peek b'[') &&& consume_ip_literal) ||| consume_reg_name

unfoldable pub consume_port : Method
unfolding skip consume num is_authority_end
consume_port = restoring λ s. test is_authority_end (skip (consume num) s)

-- `consume<Char<':'>>() && !consumePort()` returns false; then comes the end of the authority
unfoldable pub port_to_end : Method
unfolding consume char consume_port is_authority_end
port_to_end s =
    let colon = consume (char b':') s in
    if colon.0
    then (consume_port &&& test is_authority_end) colon.1
    else test is_authority_end colon.1

unfoldable pub consume_authority : Method
unfolding consume_user_info consume char consume_host port_to_end
consume_authority = restoring λ s.
    let user = consume_user_info s in
    let at_sign = consume (char b'@') user.1 in
    let behind = (consume_host &&& port_to_end) at_sign.1 in
    let hosted = (consume_host &&& port_to_end) user.1 in
    if user.0 then (if at_sign.0 then behind else (false, at_sign.1)) else hosted
