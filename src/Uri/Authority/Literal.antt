-- ===== src/Uri/Authority/Literal.antt =====
-- IP literals in a URI's host, of uri.cc: the simplified IPv6 recogniser and IPvFuture.
pub mod Rounds
pub mod Sound
use protovalidate_cc.Base.{
  ℕ, zero, suc, ◌+◌, ◌-◌, Bool, true, false, not, ◌||◌, ◌&&◌, Option, none, some, List, [], ◌∷◌,
  ◌==◌, ltb, leb, if◌then◌else◌, Bytes, length, get_elem?,
}
use protovalidate_cc.Parser.Chars.{char, hex_digit, concat_ranges, consume, consume_sequence}
use protovalidate_cc.Parser.Number.{parse_decimal_octet, parse_hexadecimal_hexadecatet}
use protovalidate_cc.Uri.Path.{differs}
use protovalidate_cc.Uri.Percent.{consume_percent_encoded_utf8_code_point}
use protovalidate_cc.Uri.Steps.{
  Method, ◌&&&◌, ◌|||◌, restoring, test, peek, skip, unreserved, sub_delims,
}

-- `parseDecimalOctet(_)` where only the text counts
unfoldable pub skip_octet : Method
unfolding parse_decimal_octet
skip_octet s = elim (parse_decimal_octet s) [ none ↦ (false, s) | some r ↦ (true, r.1) ]

unfoldable pub skip_hexadecatet : Method
unfolding parse_hexadecimal_hexadecatet
skip_hexadecatet s = elim (parse_hexadecimal_hexadecatet s) [
  | none ↦ (false, s)
  | some r ↦ (true, r.1)
]

unfoldable pub skip_quad : Method
unfolding skip_octet consume char
skip_quad =
    skip_octet
    &&& consume (char b'.')
    &&& skip_octet
    &&& consume (char b'.')
    &&& skip_octet
    &&& consume (char b'.')
    &&& skip_octet

unfoldable pub consume_zone_id : Method
unfolding skip consume unreserved consume_percent_encoded_utf8_code_point differs
consume_zone_id start =
    let s = skip (consume unreserved ||| consume_percent_encoded_utf8_code_point) start in
    (differs start s, s)

abbrev pub at_is : Bytes → ℕ → ℕ → Bool
at_is str i c = elim (get_elem? str i) [ none ↦ false | some x ↦ x == c ]

-- the test for a dotted quad, written out in the loop
unfoldable pub sees_quad : Bytes → Bool
sees_quad str =
    leb 7 (length str)
    && not (at_is str 0 b':')
    && (at_is str 1 b'.' || at_is str 2 b'.' || at_is str 3 b'.')

-- behind the loop
unfoldable pub literal_end : ℕ → Bool → Method
unfolding consume_sequence consume_zone_id
literal_end index double_colon_found s =
    let percent = consume_sequence (b'%' ∷ b'2' ∷ b'5' ∷ []) s in
    let zone = consume_zone_id percent.1 in
    if double_colon_found || index == 8
    then (if percent.0 then zone else (true, percent.1))
    else (false, s)

-- What a round of the loop does: go on with `index` and `doubleColonFound`, leave, or return.
pub data LiteralRound : Type 0 where
  go_on : ℕ → Bool → Bytes → LiteralRound
  leave : LiteralRound
  give : Bool × Bytes → LiteralRound

unfoldable pub literal_colons : ℕ → Bool → Bytes → LiteralRound
unfolding consume_sequence consume char
literal_colons index double_colon_found s =
    let two = consume_sequence (b':' ∷ b':' ∷ []) s in
    let third = consume (char b':') two.1 in
    let one = consume (char b':') s in
    if two.0
    then (if third.0 || ltb 7 index || double_colon_found
        then give (false, third.1)
        else go_on (index + 1) true third.1)
    else if one.0
    then (if index == 0 || length one.1 == 0
        then give (false, one.1)
        else go_on index double_colon_found one.1)
    else leave

unfoldable pub literal_round : ℕ → Bool → Bytes → LiteralRound
unfolding sees_quad skip_quad skip_hexadecatet literal_colons
literal_round index double_colon_found s =
    let hexadecatet = skip_hexadecatet s in
    if (double_colon_found || index == 6) && sees_quad s
    then give (skip_quad s)
    else if hexadecatet.0
    then go_on (index + 1) double_colon_found hexadecatet.1
    else literal_colons index double_colon_found s

-- A round that goes on consumes a byte, so a fuel above the length of the view is enough.
unfoldable pub literal_loop : ℕ → ℕ → Bool → Method
literal_loop zero index double_colon_found s = (false, s)
literal_loop (suc fuel) index double_colon_found s = elim (ltb index 8) [
  | false ↦ literal_end index double_colon_found s
  | true ↦ elim (literal_round index double_colon_found s) [
    | go_on i found t ↦ literal_loop fuel i found t
    | leave ↦ literal_end index double_colon_found s
    | give r ↦ r
  ]
]

unfoldable pub consume_ipv6_address : Method
unfolding literal_loop literal_round literal_end
consume_ipv6_address s = literal_loop (suc (length s)) 0 false s

-- `while (consume<…>()) j++;`, and `j >= 1` behind it
unfoldable pub future_tail : Method
unfolding skip consume unreserved sub_delims char concat_ranges differs
future_tail start =
    let s = skip (consume (concat_ranges (unreserved ∷ sub_delims ∷ char b':' ∷ []))) start in
    (differs start s, s)

unfoldable pub consume_ipv_future : Method
unfolding skip consume char hex_digit future_tail
consume_ipv_future = restoring (
    consume (char b'v') &&& consume hex_digit &&& λ s.
    (consume (char b'.') &&& future_tail) (skip (consume hex_digit) s))

unfoldable pub consume_ip_literal : Method
unfolding consume char consume_ipv6_address consume_ipv_future
consume_ip_literal = restoring (
    consume (char b'[')
    &&& (restoring (consume_ipv6_address &&& consume (char b']'))
        ||| (consume_ipv_future &&& consume (char b']'))))
