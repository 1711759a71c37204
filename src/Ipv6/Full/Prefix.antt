-- ===== src/Ipv6/Full/Prefix.antt =====
-- Prefixes whose address is written in full, against decimal notation.
use mathlib.Core.Path.{subst}
use protovalidate_cc.Base.{
  ℕ, ◌≤◌, ◌≡◌, refl, ap, sym, ◌∙◌, ◌↔◌, none, some, Option-cases, inl, inr, List, [], ◌∷◌, ◌++◌,
  append-nil, arith, Bytes, length, ◌==◌, if◌then◌else◌, Bool-cases, ==_iff,
}
use protovalidate_cc.Ipv6.Bounds.{length-IsMax}
use protovalidate_cc.Ipv6.Full.{Group, IsGroups, Stops, join, groups_value, parse_address_part-full}
use protovalidate_cc.Ipv6.Outcome.{ok}
use protovalidate_cc.Ipv6.{parse_address_part, prefix_length_part, parse_ipv6_prefix}
use protovalidate_cc.Parser.Chars.{char, consume}
use protovalidate_cc.Parser.Number.Decimal.{
  IsDecimal, parse_decimal_number_sound, parse_decimal_number_complete,
}
use protovalidate_cc.Parser.Number.{parse_decimal_number}

-- a slash and a decimal number up to 128, and nothing behind it
pub record IsLengthPart (len : ℕ) (rest : Bytes) : Type 0 where
  pub text : Bytes
  pub splits : rest ≡ b'/' ∷ text
  pub decimal : IsDecimal len text
  pub bounded : len ≤ 128

only_some :
    (rest : Bytes) {v len : ℕ}
    → (if length rest == 0 then some v else none) ≡ some len
    → (v ≡ len) × (rest ≡ [])
only_some [] h = (ground arith, refl)
only_some (c ∷ rest) h = absurd (ground arith)

behind_slash :
    (t : Bytes) (len : ℕ) → prefix_length_part (b'/' ∷ t) ≡ some len → IsLengthPart len (b'/' ∷ t)
unfolding prefix_length_part consume char
behind_slash t len h = elim (Option-cases (parse_decimal_number 128 t)) [
  | inl e ↦ absurd (ground arith)
  | inr ((v, rest), e) ↦
      let read = parse_decimal_number_sound 128 length-IsMax t e in
      let (same, nothing) = only_some rest (rw e at h) in
      record {
        text = t;
        splits = refl;
        decimal =
            subst (IsDecimal len)
              (sym (read.splits ∙ (ap (◌++◌ read.text) nothing ∙ append-nil read.text)))
              (rw same at read.decimal);
        bounded = rw same at read.bounded;
      }
]

prefix_length_part_sound :
    (rest : Bytes) (len : ℕ) → prefix_length_part rest ≡ some len → IsLengthPart len rest
unfolding prefix_length_part consume char
prefix_length_part_sound [] len h = absurd (ground arith)
prefix_length_part_sound (c ∷ t) len h = elim (Bool-cases (c == b'/')) [
  | inl e ↦
      subst (λ d. IsLengthPart len (d ∷ t)) (sym ((==_iff c b'/').0 e))
        (behind_slash t len
          (subst (λ d. prefix_length_part (d ∷ t) ≡ some len) ((==_iff c b'/').0 e) h))
  | inr e ↦ absurd (ground arith)
]

prefix_length_part_complete :
    (rest : Bytes) (len : ℕ) → IsLengthPart len rest → prefix_length_part rest ≡ some len
unfolding prefix_length_part consume char
prefix_length_part_complete rest len h =
    let e =
      rw (append-nil h.text) at
        (parse_decimal_number_complete 128 length-IsMax h.text [] h.decimal h.bounded tt) in
    rw (h.splits, e) refl

-- Eight hexadecatets with colons between them, with behind them what starts with neither a
-- hexadecimal digit nor a dot, are read as an IPv6 prefix of some bits and some length exactly
-- if the bits are the 128 bits of the groups, and a slash and that length in decimal, at most
-- 128, stand behind them and nothing else.
pub parse_ipv6_prefix-IsLengthPart :
    (g : Group) (gs : List Group) (rest : Bytes) (bits len : ℕ)
    → length gs ≡ 7
    → IsGroups (g ∷ gs)
    → Stops rest
    → (parse_ipv6_prefix (join g gs rest) ≡ ok (record { bits = bits; prefix_length = len }))
      ↔ ((bits ≡ groups_value 0 (g ∷ gs)) × IsLengthPart len rest)
unfolding parse_ipv6_prefix
parse_ipv6_prefix-IsLengthPart g gs rest bits len e h r =
    let part = parse_address_part-full g gs rest e h r in
    (forth part, λ (same, l). back part (prefix_length_part_complete rest len l) same)
  where
    forth :
        parse_address_part (join g gs rest) ≡ ok (groups_value 0 (g ∷ gs), rest)
        → parse_ipv6_prefix (join g gs rest) ≡ ok (record { bits = bits; prefix_length = len })
        → (bits ≡ groups_value 0 (g ∷ gs)) × IsLengthPart len rest
    forth part k = elim (Option-cases (prefix_length_part rest)) [
      | inl no_length ↦ absurd (ground arith)
      | inr (l, found) ↦ (ground arith, prefix_length_part_sound rest len (found ∙ ground arith))
    ]

    back :
        parse_address_part (join g gs rest) ≡ ok (groups_value 0 (g ∷ gs), rest)
        → prefix_length_part rest ≡ some len
        → bits ≡ groups_value 0 (g ∷ gs)
        → parse_ipv6_prefix (join g gs rest) ≡ ok (record { bits = bits; prefix_length = len })
    back part l same = cc
