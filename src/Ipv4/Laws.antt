-- ===== src/Ipv4/Laws.antt =====
-- What the IPv4 parsers accept, and the value that they read.
use mathlib.Core.Path.{subst, subst₂}
use protovalidate_cc.Base.{
  ℕ, ◌≤◌, ◌≡◌, refl, sym, ap, ◌∙◌, ◌↔◌, Option, none, some, [], ◌∷◌, ◌++◌, arith, Bytes, append-nil,
}
use protovalidate_cc.Ipv4.{
  Ipv4Address, Ipv4Prefix, parse_prefix_length, parse_address_part, parse_address, parse_prefix,
  parse_ipv4_address, parse_ipv4_prefix,
}
use protovalidate_cc.Parser.Chars.{char, consume}
use protovalidate_cc.Parser.Number.Decimal.{
  IsDecimal, IsMax, StartsDecimal, parse_decimal_number_sound, parse_decimal_number_complete,
}
use protovalidate_cc.Parser.Number.Loop.{Ends}
use protovalidate_cc.Parser.Number.{decimal_digit_value, calculate_decimal_digits}
use protovalidate_cc.Parser.Quad.Laws.{StartsQuad, quad_value, parse_quad_iff, or_octets-quad_value}
use protovalidate_cc.Parser.Quad.{Quad, parse_quad, or_octets}
use protovalidate_cc.Parser.State.{pure, ◌>>=◌, ◌>>◌, expect, end, >>=-eq-some}

-- `s` starts with a dotted quad of value `bits`, which no digit follows.
pub record StartsAddress (s : Bytes) (bits : ℕ) (rest : Bytes) : Type 0 where
  pub quad : Quad
  pub text : StartsQuad s quad rest
  pub value : bits ≡ quad_value quad

-- `s` is a dotted quad of value `p.bits`, a slash and the decimal `p.prefix_length` up to 32.
pub record IsPrefixText (p : Ipv4Prefix) (s : Bytes) : Type 0 where
  pub length_text : Bytes
  pub address : StartsAddress s p.bits (b'/' ∷ length_text)
  pub decimal : IsDecimal p.prefix_length length_text
  pub length_le : p.prefix_length ≤ 32

-- `s` is a dotted quad of value `bits`.
abbrev pub IsAddressText : ℕ → Bytes → Type 0
IsAddressText bits s = StartsAddress s bits []

some_inv {ℓ} : {A : Type ℓ} {a b : A} {s t : Bytes} → pure a s ≡ some (b, t) → (a ≡ b) × (s ≡ t)
some_inv h = ground arith

quad_bits :
    (s : Bytes) (q : Quad) (rest : Bytes) → StartsQuad s q rest → or_octets 0 q ≡ quad_value q
quad_bits s q rest r =
    or_octets-quad_value 0 q r.octet0.1 r.octet1.1 r.octet2.1 r.octet3.1 ∙ omega arith

part_sound :
    (s : Bytes) {bits : ℕ} {rest : Bytes}
    → parse_address_part 0 s ≡ some (bits, rest)
    → StartsAddress s bits rest
unfolding parse_address_part
part_sound s {bits} {rest} h =
    >>=-eq-some parse_quad (λ q. pure (or_octets 0 q)) s h
      λ q t first last.
        let text = (parse_quad_iff s q t).0 first in
        record {
          quad = q;
          text = subst (StartsQuad s q) (some_inv last).1 text;
          value = sym (some_inv last).0 ∙ quad_bits s q t text;
        }

part_complete :
    (s : Bytes) (bits : ℕ) (rest : Bytes)
    → StartsAddress s bits rest
    → parse_address_part 0 s ≡ some (bits, rest)
unfolding parse_address_part
part_complete s bits rest r =
    ground (arith, (parse_quad_iff s r.quad rest).1 r.text, quad_bits s r.quad rest r.text, r.value)

end_inv : (s : Bytes) {t : Bytes} → end s ≡ some (tt, t) → (s ≡ []) × (t ≡ [])
end_inv [] h = ground arith
end_inv (c ∷ cs) h = absurd (ground arith)

address_inv :
    (s : Bytes) {bits : ℕ} {rest : Bytes}
    → parse_address 0 s ≡ some (bits, rest)
    → StartsAddress s bits []
unfolding parse_address
address_inv s {bits} {rest} h =
    >>=-eq-some (parse_address_part 0) (λ b. end >> pure b) s h
      λ b t first next.
        >>=-eq-some end (λ _. pure b) t next
          λ _ u stop last.
            subst (StartsAddress s bits) (end_inv t stop).0
              (subst (λ x. StartsAddress s x t) (some_inv last).0 (part_sound s first))

address_some :
    (s : Bytes) (bits : ℕ) → StartsAddress s bits [] → parse_address 0 s ≡ some (bits, [])
unfolding parse_address
address_some s bits r = rw (part_complete s bits [] r, ◌>>=◌)

wrap_inv :
    (r : Option (ℕ × Bytes)) {a : Ipv4Address}
    → (elim r [
      | none ↦ none
      | some (bits, _) ↦ some (let x : Ipv4Address = record { bits = bits } in x)
    ])
      ≡ some a
    → (t : Bytes) × (r ≡ some (a.bits, t))
wrap_inv none h = absurd (ground arith)
wrap_inv (some (b, t)) h = (t, ground arith)

-- `parseIPv4Address` accepts exactly the dotted quads of decimal octets, with nothing behind
-- them, and reads their value.
pub parse_ipv4_address_iff :
    (s : Bytes) (a : Ipv4Address) → (parse_ipv4_address s ≡ some a) ↔ IsAddressText a.bits s
unfolding parse_ipv4_address
parse_ipv4_address_iff s a = (
  λ h. let (t, e) = wrap_inv (parse_address 0 s) h in address_inv s e,
  λ r. rw (address_some s a.bits r, parse_ipv4_address),
)

length-IsMax : IsMax 32
unfolding calculate_decimal_digits
length-IsMax = record { few = omega arith; some_digit = omega arith; below = omega arith }

length_sound :
    (s : Bytes) {v : ℕ} {rest : Bytes}
    → parse_prefix_length s ≡ some (v, rest)
    → StartsDecimal 32 s v rest
unfolding parse_prefix_length
length_sound s h = parse_decimal_number_sound 32 length-IsMax s h

length_complete :
    (text : Bytes) (v : ℕ) → IsDecimal v text → v ≤ 32 → parse_prefix_length text ≡ some (v, [])
unfolding parse_prefix_length
length_complete text v h b =
    rw (append-nil text) at (parse_decimal_number_complete 32 length-IsMax text [] h b tt)

slash_inv : (s : Bytes) {t : Bytes} → expect (char b'/') s ≡ some (tt, t) → s ≡ b'/' ∷ t
unfolding consume char
slash_inv [] h = absurd (ground arith)
slash_inv (c ∷ cs) h = ground arith

slash-Ends : (t : Bytes) → Ends decimal_digit_value (b'/' ∷ t)
unfolding decimal_digit_value
slash-Ends t = refl

prefix_inv :
    (s : Bytes) {p : Ipv4Prefix} {rest : Bytes}
    → parse_prefix 0 s ≡ some (p, rest)
    → IsPrefixText p s
unfolding parse_prefix
prefix_inv s {p} {rest} h = >>=-eq-some (parse_address_part 0) _ s h λ b t first next.
    >>=-eq-some (expect (char b'/')) _ t next λ _ u slash next'.
      >>=-eq-some parse_prefix_length _ u next' λ len v number next''.
        >>=-eq-some end (λ _. pure _) v next''
          λ _ w stop last.
            let n = length_sound u number in
            let same = (some_inv last).0 in
            let u_text : u ≡ n.text =
              n.splits ∙ ap (◌++◌ n.text) (end_inv v stop).0 ∙ append-nil n.text in
            record {
              length_text = n.text;
              address =
                  subst₂ (StartsAddress s) (ap (λ (p : Ipv4Prefix). p.bits) same)
                    (slash_inv t slash ∙ ap (◌∷◌ b'/') u_text) (part_sound s first);
              decimal =
                  subst (λ x. IsDecimal x n.text) (ap (λ (p : Ipv4Prefix). p.prefix_length) same)
                    n.decimal;
              length_le =
                  subst (λ x. x ≤ 32) (ap (λ (p : Ipv4Prefix). p.prefix_length) same) n.bounded;
            }

prefix_some : (s : Bytes) (p : Ipv4Prefix) → IsPrefixText p s → parse_prefix 0 s ≡ some (p, [])
unfolding parse_prefix consume char
prefix_some s p r =
    rw (part_complete s p.bits (b'/' ∷ r.length_text) r.address, ◌>>=◌)
      (rw (length_complete r.length_text p.prefix_length r.decimal r.length_le, ◌>>=◌) refl)

wrap_prefix_inv :
    (r : Option (Ipv4Prefix × Bytes)) {p : Ipv4Prefix}
    → elim r [ none ↦ none | some (q, _) ↦ some q ] ≡ some p
    → (t : Bytes) × (r ≡ some (p, t))
wrap_prefix_inv none h = absurd (ground arith)
wrap_prefix_inv (some (b, t)) h = (t, ground arith)

-- `parseIPv4Prefix` accepts exactly a dotted quad, a slash and a decimal length up to 32, with
-- nothing behind them, and reads the two values.
pub parse_ipv4_prefix_iff :
    (s : Bytes) (p : Ipv4Prefix) → (parse_ipv4_prefix s ≡ some p) ↔ IsPrefixText p s
unfolding parse_ipv4_prefix
parse_ipv4_prefix_iff s p = (
  λ h. let (t, e) = wrap_prefix_inv (parse_prefix 0 s) h in prefix_inv s e,
  λ r. rw (prefix_some s p r, parse_ipv4_prefix),
)
