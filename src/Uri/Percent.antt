-- ===== src/Uri/Percent.antt =====
-- Percent-encoded bytes, and percent-encoded UTF-8 code points, of uri.cc.
pub mod Sound
use protovalidate_cc.Base.{
  ℕ, zero, suc, Bool, true, false, not, ◌&&◌, ◌||◌, Option, none, some, List, [], ◌∷◌, bit_and,
  ◌==◌, ltb, leb, within, if◌then◌else◌, Bytes,
}
use protovalidate_cc.Parser.Chars.{char, hex_digit, consume}
use protovalidate_cc.Parser.Number.{parse_hexadecimal_number}
use protovalidate_cc.Uri.Steps.{Method, ◌&&&◌, restoring}

unfoldable pub consume_percent_encoded : Method
unfolding consume char hex_digit
consume_percent_encoded =
    restoring (consume (char b'%') &&& consume hex_digit &&& consume hex_digit)

-- the byte and the view behind it; `none` leaves the view alone
unfoldable pub parse_percent_encoded : Bytes → Option (ℕ × Bytes)
unfolding consume char parse_hexadecimal_number
parse_percent_encoded s =
    let percent = consume (char b'%') s in
    let rest = parse_hexadecimal_number 0xff 2 percent.1 in if percent.0 then rest else none

-- the size of the sequence that a prefix byte above 0x7f announces
unfoldable pub sequence_size : ℕ → Option ℕ
sequence_size b0 =
    if within 0xc2 0xdf b0
    then some 2
    else if within 0xe0 0xef b0
    then some 3
    else if within 0xf0 0xf4 b0
    then some 4
    else none

-- `(b & 0b1100'0000) == 0b1000'0000`
abbrev pub is_continuation : ℕ → Bool
is_continuation b = bit_and b 0b1100_0000 == 0b1000_0000

-- the loop over the bytes behind the prefix: so many of them
unfoldable pub continuation_bytes : ℕ → Bytes → Option (List ℕ × Bytes)
unfolding parse_percent_encoded
continuation_bytes zero s = some ([], s)
continuation_bytes (suc n) s = elim (parse_percent_encoded s) [
  | none ↦ none
  | some (b, rest) ↦ elim (is_continuation b) [
    | false ↦ none
    | true ↦ elim (continuation_bytes n rest) [
      | none ↦ none
      | some (bs, left) ↦ some (b ∷ bs, left)
    ]
  ]
]

-- the invalid conditions, on b[0] and b[1]
unfoldable pub is_invalid_sequence : ℕ → ℕ → Bool
is_invalid_sequence b0 b1 =
    (b0 == 0xe0 && ltb b1 0xa0) || (b0 == 0xf0 && ltb b1 0x90) || (b0 == 0xf4 && ltb 0x90 b1)

-- behind the prefix byte b[0]; the bytes are there where `none` is not the answer
unfoldable pub code_point_tail : ℕ → Bytes → Option Bytes
unfolding sequence_size continuation_bytes is_invalid_sequence
code_point_tail b0 s = elim (sequence_size b0) [
  | none ↦ none
  | some zero ↦ none
  | some (suc n) ↦ elim (continuation_bytes n s) [
    | none ↦ none
    | some ([], rest) ↦ none
    | some (b1 ∷ bs, rest) ↦ if is_invalid_sequence b0 b1 then none else some rest
  ]
]

unfoldable pub code_point : Bytes → Option Bytes
unfolding parse_percent_encoded code_point_tail
code_point s = elim (parse_percent_encoded s) [
  | none ↦ none
  | some (b0, rest) ↦ elim (leb b0 0x7f) [ true ↦ some rest | false ↦ code_point_tail b0 rest ]
]

-- `consumePercentEncodedUTF8CodePoint`, which restores the view where it fails
unfoldable pub consume_percent_encoded_utf8_code_point : Method
unfolding code_point
consume_percent_encoded_utf8_code_point s = elim (code_point s) [
  | none ↦ (false, s)
  | some rest ↦ (true, rest)
]
