-- ===== src/Parser/Quad/Laws.antt =====
-- A dotted quad is four decimal octets with dots between them.
use mathlib.Core.Path.{subst}
use protovalidate_cc.Base.{
  ℕ, ◌+◌, ◌*◌, ◌^◌, ◌≤◌, ◌≡◌, refl, ◌∙◌, ◌↔◌, some, [], ◌∷◌, ◌++◌, arith, Bytes,
}
use protovalidate_cc.Base.Bits.{bit_or-eq-add}
use protovalidate_cc.Parser.Chars.{char, consume}
use protovalidate_cc.Parser.Number.Decimal.{
  IsDecimal, IsMax, StartsDecimal, parse_decimal_number_sound, parse_decimal_number_complete,
}
use protovalidate_cc.Parser.Number.Loop.{Ends}
use protovalidate_cc.Parser.Number.{
  parse_decimal_octet, decimal_digit_value, calculate_decimal_digits,
}
use protovalidate_cc.Parser.Quad.{Quad, dot, octet_dot, parse_quad, or_octets}
use protovalidate_cc.Parser.State.{pure, ◌>>=◌, ◌>>◌, >>=-eq-some, >>=-some}

octet-IsMax : IsMax 255
unfolding calculate_decimal_digits
octet-IsMax = record { few = omega arith; some_digit = omega arith; below = omega arith }

abbrev pub IsOctet : ℕ → Bytes → Type 0
IsOctet v text = IsDecimal v text × (v ≤ 255)

-- `s` starts with the dotted quad `q`, and no digit follows it.
pub record StartsQuad (s : Bytes) (q : Quad) (rest : Bytes) : Type 0 where
  pub t0 : Bytes
  pub t1 : Bytes
  pub t2 : Bytes
  pub t3 : Bytes
  pub splits : s ≡ t0 ++ (b'.' ∷ (t1 ++ (b'.' ∷ (t2 ++ (b'.' ∷ (t3 ++ rest))))))
  pub octet0 : IsOctet q.o0 t0
  pub octet1 : IsOctet q.o1 t1
  pub octet2 : IsOctet q.o2 t2
  pub octet3 : IsOctet q.o3 t3
  pub ends : Ends decimal_digit_value rest

-- `s` starts with one octet and a dot.
record StartsOctet (s : Bytes) (v : ℕ) (rest : Bytes) : Type 0 where
  text : Bytes
  splits : s ≡ text ++ (b'.' ∷ rest)
  octet : IsOctet v text

-- The octets stand side by side in the 32 bits.
unfoldable pub quad_value : Quad → ℕ
quad_value q = q.o0 * 2 ^ 24 + q.o1 * 2 ^ 16 + q.o2 * 2 ^ 8 + q.o3

dot_inv : (s : Bytes) {t : Bytes} → dot s ≡ some (tt, t) → s ≡ b'.' ∷ t
unfolding consume char
dot_inv [] h = ground arith
dot_inv (c ∷ cs) h = ground arith

dot-some : (t : Bytes) → dot (b'.' ∷ t) ≡ some (tt, t)
unfolding consume char
dot-some t = refl

octet_sound :
    (s : Bytes) {v : ℕ} {rest : Bytes}
    → parse_decimal_octet s ≡ some (v, rest)
    → StartsDecimal 255 s v rest
unfolding parse_decimal_octet
octet_sound s h = parse_decimal_number_sound 255 octet-IsMax s h

octet_complete :
    (text rest : Bytes) {v : ℕ}
    → IsOctet v text
    → Ends decimal_digit_value rest
    → parse_decimal_octet (text ++ rest) ≡ some (v, rest)
unfolding parse_decimal_octet
octet_complete text rest (h, b) ends =
    parse_decimal_number_complete 255 octet-IsMax text rest h b ends

dot-Ends : (t : Bytes) → Ends decimal_digit_value (b'.' ∷ t)
unfolding decimal_digit_value
dot-Ends t = refl

octet_dot_sound :
    (s : Bytes) {v : ℕ} {rest : Bytes} → octet_dot s ≡ some (v, rest) → StartsOctet s v rest
unfolding octet_dot
octet_dot_sound s {v} {rest} h =
    >>=-eq-some parse_decimal_octet (λ v. dot >> pure v) s h
      λ w t first h'.
        >>=-eq-some dot (λ _. pure w) t h'
          λ _ u second last.
            let r = octet_sound s first in
            record {
              text = r.text;
              splits = ground (arith, r.splits, dot_inv t second);
              octet = (
                subst (λ x. IsDecimal x r.text) (value last) r.decimal,
                ground (arith, r.bounded),
              );
            }
  where
    value : {w v : ℕ} {u rest : Bytes} → pure w u ≡ some (v, rest) → w ≡ v
    value e = ground arith

octet_dot_complete :
    (text rest : Bytes) {v : ℕ}
    → IsOctet v text
    → octet_dot (text ++ (b'.' ∷ rest)) ≡ some (v, rest)
unfolding octet_dot
octet_dot_complete text rest {v} h =
    >>=-some parse_decimal_octet (λ v. dot >> pure v) (text ++ (b'.' ∷ rest)) {t = b'.' ∷ rest}
      (octet_complete text _ h (dot-Ends rest))
    ∙ >>=-some dot (λ _. pure v) (b'.' ∷ rest) (dot-some rest)

pure_quad :
    {a b c d : ℕ} {t : Bytes} {q : Quad} {rest : Bytes}
    → pure (let x : Quad = record { o0 = a; o1 = b; o2 = c; o3 = d } in x) t ≡ some (q, rest)
    → (a ≡ q.o0) × (b ≡ q.o1) × (c ≡ q.o2) × (d ≡ q.o3) × (t ≡ rest)
pure_quad h = ground arith

quad_sound :
    (s : Bytes) {q : Quad} {rest : Bytes} → parse_quad s ≡ some (q, rest) → StartsQuad s q rest
unfolding parse_quad
quad_sound s h = >>=-eq-some octet_dot _ s h λ a s1 h0 k0.
    >>=-eq-some octet_dot _ s1 k0 λ b s2 h1 k1. >>=-eq-some octet_dot _ s2 k1 λ c s3 h2 k2.
      >>=-eq-some parse_decimal_octet _ s3 k2 λ d s4 h3 last.
        let r0 = octet_dot_sound s h0 in
        let r1 = octet_dot_sound s1 h1 in
        let r2 = octet_dot_sound s2 h2 in
        let r3 = octet_sound s3 h3 in
        record {
          t0 = r0.text;
          t1 = r1.text;
          t2 = r2.text;
          t3 = r3.text;
          splits = ground (arith, r0.splits, r1.splits, r2.splits, r3.splits);
          octet0 = rw (← (pure_quad last).0) r0.octet;
          octet1 = rw (← (pure_quad last).1) r1.octet;
          octet2 = rw (← (pure_quad last).2) r2.octet;
          octet3 = rw (← (pure_quad last).3) (r3.decimal, r3.bounded);
          ends = rw (← (pure_quad last).4) r3.ends;
        }

quad_complete :
    (s : Bytes) (q : Quad) (rest : Bytes) → StartsQuad s q rest → parse_quad s ≡ some (q, rest)
unfolding parse_quad
quad_complete s q rest r =
    let s3 : Bytes = r.t3 ++ rest in
    let s2 : Bytes = r.t2 ++ (b'.' ∷ s3) in
    let s1 : Bytes = r.t1 ++ (b'.' ∷ s2) in
    rw (r.splits, octet_dot_complete r.t0 s1 r.octet0, ◌>>=◌)
      (rw (octet_dot_complete r.t1 s2 r.octet1, ◌>>=◌)
        (rw (octet_dot_complete r.t2 s3 r.octet2, ◌>>=◌)
          (rw (octet_complete r.t3 rest r.octet3 r.ends, ◌>>=◌) refl)))

-- The octets of an address are read exactly from the dotted quads of decimal octets that no
-- digit follows.
pub parse_quad_iff :
    (s : Bytes) (q : Quad) (rest : Bytes) → (parse_quad s ≡ some (q, rest)) ↔ StartsQuad s q rest
parse_quad_iff s q rest = (quad_sound s, quad_complete s q rest)

-- `|=` puts four octets side by side into the low 32 bits, below whatever stands above bit 32.
pub or_octets-quad_value :
    (high : ℕ) (q : Quad)
    → q.o0 ≤ 255
    → q.o1 ≤ 255
    → q.o2 ≤ 255
    → q.o3 ≤ 255
    → or_octets (high * 2 ^ 32) q ≡ high * 2 ^ 32 + quad_value q
unfolding or_octets quad_value
or_octets-quad_value high q h0 h1 h2 h3 =
    let a = high * 2 ^ 32 in
    let b = a + q.o0 * 2 ^ 24 in
    let c = b + q.o1 * 2 ^ 16 in
    let d = c + q.o2 * 2 ^ 8 in
    rw
      (
        bit_or-eq-add 32 high (q.o0 * 2 ^ 24) a refl (omega arith),
        bit_or-eq-add 24 (high * 2 ^ 8 + q.o0) (q.o1 * 2 ^ 16) b (omega arith) (omega arith),
        bit_or-eq-add 16 (high * 2 ^ 16 + q.o0 * 2 ^ 8 + q.o1) (q.o2 * 2 ^ 8) c (omega arith)
            (omega arith),
        bit_or-eq-add 8 (high * 2 ^ 24 + q.o0 * 2 ^ 16 + q.o1 * 2 ^ 8 + q.o2) q.o3 d (omega arith)
            (omega arith),
      )
      (omega arith)
