-- ===== src/Uri/Percent/Sound.antt =====
-- What the percent-encoding methods of uri.cc read.
use mathlib.Core.Path.{subst}
use protovalidate_cc.Base.{
  ℕ, zero, suc, ◌≤◌, ◌≡◌, refl, sym, ap, ◌∙◌, Bool, true, false, Option, none, some, List, [], ◌∷◌,
  ◌++◌, append_assoc, leb, arith, Bytes, length, if◌then◌else◌,
}
use protovalidate_cc.Parser.Chars.Laws.{hex_digit_ranges}
use protovalidate_cc.Parser.Chars.{char, hex_digit, char_match_range, consume}
use protovalidate_cc.Parser.Number.Hexadecimal.{
  StartsHexadecimal, hexadecimal_value, parse_hexadecimal_number_sound,
}
use protovalidate_cc.Parser.Number.Loop.{digits_value_inv}
use protovalidate_cc.Parser.Number.{
  hexadecimal_digit_value, parse_hexadecimal_number, calculate_hexadecimal_digits,
}
use protovalidate_cc.Uri.Language.{
  Language, OneOf, one, Cat, cat, Star, none_of, some_of, Consumes, Recognises, Recognises-Reads,
  Recognises-restoring, Reads-&&&, Recognises-consume,
}
use protovalidate_cc.Uri.Percent.{
  consume_percent_encoded, parse_percent_encoded, sequence_size, is_continuation,
  continuation_bytes, is_invalid_sequence, code_point_tail, code_point,
  consume_percent_encoded_utf8_code_point,
}

-- pct-encoded = "%" HEXDIG HEXDIG
abbrev pub PctEncoded : Language
PctEncoded = Cat (OneOf (char b'%')) (Cat (OneOf hex_digit) (OneOf hex_digit))

pub Recognises-percent_encoded : Recognises PctEncoded consume_percent_encoded
unfolding consume_percent_encoded
Recognises-percent_encoded = Recognises-restoring _ _ (
    Reads-&&& _ _ _ _ (Recognises-Reads _ _ (Recognises-consume (char b'%'))) (
      Reads-&&& _ _ _ _ (Recognises-Reads _ _ (Recognises-consume hex_digit))
        (Recognises-Reads _ _ (Recognises-consume hex_digit))))

digit_is_hex :
    (c : ℕ) {d : ℕ} → hexadecimal_digit_value c ≡ some d → char_match_range hex_digit c ≡ true
unfolding hexadecimal_digit_value
digit_is_hex c h = ground (arith, hex_digit_ranges c)

two_digits :
    (text : Bytes) {v : ℕ}
    → 2 ≤ length text
    → length text ≤ 2
    → hexadecimal_value 0 text ≡ some v
    → Cat (OneOf hex_digit) (OneOf hex_digit) text
two_digits (a ∷ b ∷ []) ge le h =
    let (d, found, h') = digits_value_inv 16 hexadecimal_digit_value 0 a (b ∷ []) h in
    let (e, found', _) = digits_value_inv 16 hexadecimal_digit_value _ b [] h' in
    cat (one (digit_is_hex a found)) (one (digit_is_hex b found'))
two_digits [] ge le h = absurd (omega arith)
two_digits (a ∷ []) ge le h = absurd (omega arith)
two_digits (a ∷ b ∷ c ∷ s) ge le h = absurd (omega arith)

percent_inv :
    (s : Bytes) {b : ℕ} {rest : Bytes}
    → parse_percent_encoded s ≡ some (b, rest)
    → ((consume (char b'%') s).0 ≡ true)
      × (parse_hexadecimal_number 0xff 2 (consume (char b'%') s).1 ≡ some (b, rest))
unfolding parse_percent_encoded
percent_inv s h = ground arith

percent_sound :
    (s : Bytes) {b : ℕ} {rest : Bytes}
    → parse_percent_encoded s ≡ some (b, rest)
    → (pre : Bytes) × (s ≡ pre ++ rest) × PctEncoded pre
unfolding calculate_hexadecimal_digits
percent_sound s {b} {rest} h =
    let (seen, parsed) = percent_inv s h in
    let r = parse_hexadecimal_number_sound 0xff 2 (omega arith) (consume (char b'%') s).1 parsed in
    go (consume (char b'%') s) seen r (Recognises-consume (char b'%') s)
  where
    go :
        (p : Bool × Bytes)
        → p.0 ≡ true
        → StartsHexadecimal 0xff 2 p.1 b rest
        → Consumes (OneOf (char b'%')) s p
        → (pre : Bytes) × (s ≡ pre ++ rest) × PctEncoded pre
    go (true, t) seen r (pre, e, percent) = (
      pre ++ r.text,
      e ∙ ap (◌++◌ pre) r.splits ∙ sym (append_assoc pre r.text rest),
      cat percent (two_digits r.text r.enough r.few r.value),
    )
    go (false, t) seen r h = cc

-- one triplet in front of what is read behind it
triplet_then :
    (s t u : Bytes) {pre mid : Bytes}
    → s ≡ pre ++ t
    → PctEncoded pre
    → t ≡ mid ++ u
    → Star PctEncoded mid
    → (whole : Bytes) × (s ≡ whole ++ u) × Star PctEncoded whole
triplet_then s t u {pre} {mid} e h e' h' =
    (pre ++ mid, e ∙ ap (◌++◌ pre) e' ∙ sym (append_assoc pre mid u), some_of h h')

-- one triplet or more
abbrev pub Triplets : Language
Triplets = Cat PctEncoded (Star PctEncoded)

-- the same, with the first one in sight
first_triplet :
    (s t u : Bytes) {pre mid : Bytes}
    → s ≡ pre ++ t
    → PctEncoded pre
    → t ≡ mid ++ u
    → Star PctEncoded mid
    → (whole : Bytes) × (s ≡ whole ++ u) × Triplets whole
first_triplet s t u {pre} {mid} e h e' h' =
    (pre ++ mid, e ∙ ap (◌++◌ pre) e' ∙ sym (append_assoc pre mid u), cat h h')

abbrev Encodes : Bytes → Option (List ℕ × Bytes) → Type 0
Encodes s none = Unit {0}
Encodes s (some (bs, rest)) = (pre : Bytes) × (s ≡ pre ++ rest) × Star PctEncoded pre

continuation_bytes-Encodes : (n : ℕ) (s : Bytes) → Encodes s (continuation_bytes n s)
unfolding continuation_bytes
continuation_bytes-Encodes zero s = ([], refl, none_of)
continuation_bytes-Encodes (suc n) s =
    first (parse_percent_encoded s) refl (continuation_bytes-Encodes n)
  where
    behind :
        (b : ℕ) (rest : Bytes)
        → parse_percent_encoded s ≡ some (b, rest)
        → (r : Option (List ℕ × Bytes)) → Encodes rest r
        → Encodes s (elim r [ none ↦ none | some (bs, left) ↦ some (b ∷ bs, left) ])
    behind b rest e none h = tt
    behind b rest e (some (bs, left)) h =
        let (pre, e', triplet) = percent_sound s e in
        let (mid, e'', triplets) = h in triplet_then s rest left e' triplet e'' triplets

    tested :
        (b : ℕ) (rest : Bytes)
        → parse_percent_encoded s ≡ some (b, rest)
        → (v : Bool) → Encodes rest (continuation_bytes n rest)
        → Encodes s (elim v [
          | false ↦ none
          | true ↦ elim (continuation_bytes n rest) [
            | none ↦ none
            | some (bs, left) ↦ some (b ∷ bs, left)
          ]
        ])
    tested b rest e false h = tt
    tested b rest e true h = behind b rest e (continuation_bytes n rest) h

    first :
        (r : Option (ℕ × Bytes))
        → parse_percent_encoded s ≡ r
        → ((t : Bytes) → Encodes t (continuation_bytes n t))
        → Encodes s (elim r [
          | none ↦ none
          | some (b, rest) ↦ elim (is_continuation b) [
            | false ↦ none
            | true ↦ elim (continuation_bytes n rest) [
              | none ↦ none
              | some (bs, left) ↦ some (b ∷ bs, left)
            ]
          ]
        ])
    first none e ih = tt
    first (some (b, rest)) e ih = tested b rest e (is_continuation b) (ih rest)

-- What `code_point` has read is a sequence of triplets.
tail_sound :
    (b0 : ℕ) (s : Bytes) {rest : Bytes}
    → code_point_tail b0 s ≡ some rest
    → (n : ℕ) × (bs : List ℕ) × (continuation_bytes n s ≡ some (bs, rest))
unfolding code_point_tail
tail_sound b0 s {rest} h = sized (sequence_size b0) h
  where
    counted :
        (n : ℕ) (r : Option (List ℕ × Bytes))
        → continuation_bytes n s ≡ r
        → elim r [
          | none ↦ none
          | some ([], rest) ↦ none
          | some (b1 ∷ bs, rest) ↦ if is_invalid_sequence b0 b1 then none else some rest
        ]
          ≡ some rest
        → (n : ℕ) × (bs : List ℕ) × (continuation_bytes n s ≡ some (bs, rest))
    counted n none e h = cc
    counted n (some ([], left)) e h = cc
    counted n (some (b1 ∷ bs, left)) e h = (n, b1 ∷ bs, ground arith)

    sized :
        (size : Option ℕ)
        → elim size [
          | none ↦ none
          | some zero ↦ none
          | some (suc n) ↦ elim (continuation_bytes n s) [
            | none ↦ none
            | some ([], rest) ↦ none
            | some (b1 ∷ bs, rest) ↦ if is_invalid_sequence b0 b1 then none else some rest
          ]
        ]
          ≡ some rest
        → (n : ℕ) × (bs : List ℕ) × (continuation_bytes n s ≡ some (bs, rest))
    sized none h = cc
    sized (some zero) h = cc
    sized (some (suc n)) h = counted n (continuation_bytes n s) refl h

code_point_sound :
    (s : Bytes) {rest : Bytes}
    → code_point s ≡ some rest
    → (pre : Bytes) × (s ≡ pre ++ rest) × Triplets pre
unfolding code_point
code_point_sound s {rest} h = first (parse_percent_encoded s) refl h
  where
    tested :
        (b0 : ℕ) (t : Bytes) (v : Bool)
        → parse_percent_encoded s ≡ some (b0, t)
        → elim v [ true ↦ some t | false ↦ code_point_tail b0 t ] ≡ some rest
        → (pre : Bytes) × (s ≡ pre ++ rest) × Triplets pre
    tested b0 t true e h =
        let (pre, e', triplet) = percent_sound s e in
        let same : t ≡ rest = ground arith in
        first_triplet s t rest {mid = []} e' triplet same none_of
    tested b0 t false e h =
        let (pre, e', triplet) = percent_sound s e in
        let (n, bs, found) = tail_sound b0 t h in
        let (mid, e'', triplets) = subst (Encodes t) found (continuation_bytes-Encodes n t) in
        first_triplet s t rest e' triplet e'' triplets

    first :
        (r : Option (ℕ × Bytes))
        → parse_percent_encoded s ≡ r
        → elim r [
          | none ↦ none
          | some (b0, rest) ↦ elim (leb b0 0x7f) [
            | true ↦ some rest
            | false ↦ code_point_tail b0 rest
          ]
        ]
          ≡ some rest
        → (pre : Bytes) × (s ≡ pre ++ rest) × Triplets pre
    first none e h = cc
    first (some (b0, t)) e h = tested b0 t (leb b0 0x7f) e h

pub Recognises-Triplets : Recognises Triplets consume_percent_encoded_utf8_code_point
unfolding consume_percent_encoded_utf8_code_point
Recognises-Triplets s = go (code_point s) refl
  where
    go :
        (r : Option Bytes)
        → code_point s ≡ r
        → Consumes Triplets s (elim r [ none ↦ (false, s) | some rest ↦ (true, rest) ])
    go none e = refl
    go (some rest) e = code_point_sound s e

Triplets-Star : {s : Bytes} → Triplets s → Star PctEncoded s
Triplets-Star (cat h hs) = some_of h hs

pub Recognises-code_point : Recognises (Star PctEncoded) consume_percent_encoded_utf8_code_point
Recognises-code_point s = go (consume_percent_encoded_utf8_code_point s) (Recognises-Triplets s)
  where
    go : (r : Bool × Bytes) → Consumes Triplets s r → Consumes (Star PctEncoded) s r
    go (true, t) (pre, e, h) = (pre, e, Triplets-Star h)
    go (false, t) e = e
