-- ===== src/Uri/Authority/Literal/Rounds.antt =====
-- What the rounds of the IPv6 literal loop of uri.cc read. The language of an IPv6 literal is wider than RFC 3986's:
-- it says which characters stand in it and where a zone id does, and not how the groups are counted.
use mathlib.Core.Path.{subst}
use protovalidate_cc.Base.{
  ℕ, ◌+◌, ◌*◌, ◌≡◌, refl, sym, ap, ◌∙◌, inl, inr, Bool, true, false, ◌||◌, Option, none, some, List,
  [], ◌∷◌, ◌++◌, ltb, ◌==◌, arith, Bytes, length, Bool-cases, if◌then◌else◌,
}
use protovalidate_cc.Parser.Chars.Laws.{hex_digit_ranges, char_match_range-append}
use protovalidate_cc.Parser.Chars.{char, hex_digit, char_match_range, consume, consume_sequence}
use protovalidate_cc.Parser.Number.Decimal.{IsDecimal, IsMax, parse_decimal_number_sound}
use protovalidate_cc.Parser.Number.Hexadecimal.{parse_hexadecimal_number_sound}
use protovalidate_cc.Parser.Number.Loop.{digits_value, digits_value_inv}
use protovalidate_cc.Parser.Number.{
  decimal_digit_value, hexadecimal_digit_value, calculate_decimal_digits,
  calculate_hexadecimal_digits, parse_decimal_octet, parse_hexadecimal_hexadecatet,
}
use protovalidate_cc.Uri.Authority.Literal.{
  skip_octet, skip_hexadecatet, skip_quad, LiteralRound, go_on, leave, give, literal_colons,
}
use protovalidate_cc.Uri.Language.{
  Language, OneOf, one, Exactly, Cat, cat, Star, none_of, some_of, Yields, Consumes, Reads,
  Recognises, Recognises-Reads, Reads-&&&, Recognises-consume, Recognises-consume_sequence,
  Star-append, Reads-map,
}
use protovalidate_cc.Uri.Steps.{Method, ◌&&&◌}

-- the characters of an IPv6 address, with or without a dotted quad
abbrev pub literal_chars : List ℕ
literal_chars = hex_digit ++ (b':' ∷ b'.' ∷ [])

abbrev pub LiteralText : Language
LiteralText = Star (OneOf literal_chars)

hex_literal :
    (c : ℕ) → char_match_range hex_digit c ≡ true → char_match_range literal_chars c ≡ true
hex_literal c h = ground (arith, char_match_range-append hex_digit (b':' ∷ b'.' ∷ []) c)

decimal_literal :
    (c : ℕ) {d : ℕ} → decimal_digit_value c ≡ some d → char_match_range literal_chars c ≡ true
unfolding decimal_digit_value
decimal_literal c h = hex_literal c (ground (arith, hex_digit_ranges c))

hexadecimal_literal :
    (c : ℕ) {d : ℕ} → hexadecimal_digit_value c ≡ some d → char_match_range literal_chars c ≡ true
unfolding hexadecimal_digit_value
hexadecimal_literal c h = hex_literal c (ground (arith, hex_digit_ranges c))

-- A run of digits is literal text.
digits_literal :
    (base : ℕ) (digit : ℕ → Option ℕ)
    → ((c d : ℕ) → digit c ≡ some d → char_match_range literal_chars c ≡ true)
    → (text : Bytes) (acc : ℕ) {v : ℕ} → digits_value base digit acc text ≡ some v
    → LiteralText text
digits_literal base digit lit [] acc h = none_of
digits_literal base digit lit (c ∷ text) acc h =
    let (d, found, h') = digits_value_inv base digit acc c text h in
    some_of (one (lit c d found)) (digits_literal base digit lit text (acc * base + d) h')

decimal_text : (v : ℕ) (text : Bytes) → IsDecimal v text → LiteralText text
decimal_text v [] h = absurd h
decimal_text v (c ∷ []) h = some_of (one (decimal_literal c h)) none_of
decimal_text v (c ∷ d ∷ text) (_, h) =
    digits_literal 10 decimal_digit_value (λ c d. decimal_literal c) (c ∷ d ∷ text) 0 h

Recognises-octet : Recognises LiteralText skip_octet
unfolding skip_octet parse_decimal_octet calculate_decimal_digits
Recognises-octet s = go (parse_decimal_octet s) refl
  where
    octet_max : IsMax 255
    octet_max = record { few = omega arith; some_digit = omega arith; below = omega arith }

    go :
        (r : Option (ℕ × Bytes))
        → parse_decimal_octet s ≡ r
        → Consumes LiteralText s (elim r [ none ↦ (false, s) | some r ↦ (true, r.1) ])
    go none e = refl
    go (some (v, rest)) e =
        let r = parse_decimal_number_sound 255 octet_max s e in
        (r.text, r.splits, decimal_text v r.text r.decimal)

pub Recognises-hexadecatet : Recognises LiteralText skip_hexadecatet
unfolding skip_hexadecatet parse_hexadecimal_hexadecatet calculate_hexadecimal_digits
Recognises-hexadecatet s = go (parse_hexadecimal_hexadecatet s) refl
  where
    go :
        (r : Option (ℕ × Bytes))
        → parse_hexadecimal_hexadecatet s ≡ r
        → Consumes LiteralText s (elim r [ none ↦ (false, s) | some r ↦ (true, r.1) ])
    go none e = refl
    go (some (v, rest)) e =
        let r = parse_hexadecimal_number_sound 0xffff 1 (omega arith) s e in
        (
          r.text,
          r.splits,
          digits_literal 16 hexadecimal_digit_value (λ c d. hexadecimal_literal c) r.text 0 r.value,
        )

char_text :
    (c : ℕ) (s : Bytes) → char_match_range literal_chars c ≡ true → OneOf (char c) s → LiteralText s
unfolding char char_match_range
char_text c _ lit (one {c = d} m) = some_of (one (rw same lit)) none_of
  where
    same : d ≡ c
    same = ground arith

colon_literal : char_match_range literal_chars b':' ≡ true
unfolding char_match_range hex_digit
colon_literal = refl

dot_literal : char_match_range literal_chars b'.' ≡ true
unfolding char_match_range hex_digit
dot_literal = refl

Reads-dot : Reads LiteralText (consume (char b'.'))
Reads-dot =
    Reads-map _ _ _ (λ s. char_text b'.' s dot_literal)
      (Recognises-Reads _ _ (Recognises-consume (char b'.')))

joined : (s : Bytes) → Cat LiteralText LiteralText s → LiteralText s
joined _ (cat {s} {t} h k) = Star-append (OneOf literal_chars) t h k

Reads-both :
    (p q : Method) → Reads LiteralText p → Reads LiteralText q → Reads LiteralText (p &&& q)
Reads-both p q h k =
    Reads-map (Cat LiteralText LiteralText) LiteralText (p &&& q) joined
      (Reads-&&& LiteralText LiteralText p q h k)

Reads-octet : Reads LiteralText skip_octet
Reads-octet = Recognises-Reads _ _ Recognises-octet

pub Reads-quad : Reads LiteralText skip_quad
unfolding skip_quad
Reads-quad = Reads-both _ _ Reads-octet (
    Reads-both _ _ Reads-dot (
      Reads-both _ _ Reads-octet (
        Reads-both _ _ Reads-dot
          (Reads-both _ _ Reads-octet (Reads-both _ _ Reads-dot Reads-octet)))))

-- What a round of the loop has read where it goes on, or returns.
abbrev pub RoundReads : Bytes → LiteralRound → Type 0
RoundReads s (go_on index found t) = (pre : Bytes) × (s ≡ pre ++ t) × LiteralText pre
RoundReads s leave = Unit {0}
RoundReads s (give r) = Yields LiteralText s r

pub colons-RoundReads :
    (index : ℕ) (found : Bool) (s : Bytes) → RoundReads s (literal_colons index found s)
unfolding literal_colons
colons-RoundReads index found s =
    two (consume_sequence (b':' ∷ b':' ∷ []) s) (Recognises-consume_sequence (b':' ∷ b':' ∷ []) s)
  where
    text : LiteralText (b':' ∷ b':' ∷ [])
    text = some_of (one colon_literal) (some_of (one colon_literal) none_of)

    third :
        (t : Bytes) (pre : Bytes)
        → s ≡ pre ++ t
        → pre ≡ b':' ∷ b':' ∷ []
        → (r : Bool × Bytes) → Consumes (OneOf (char b':')) t r
        → RoundReads s
            (if r.0 || ltb 7 index || found then give (false, r.1) else go_on (index + 1) true r.1)
    third t pre e e' (true, u) h = tt
    third t pre e e' (false, u) h = elim (Bool-cases (ltb 7 index || found)) [
      | inl refused ↦ rw refused tt
      | inr fine ↦ rw fine (pre, e ∙ ap (λ x. pre ++ x) (sym h), subst LiteralText (sym e') text)
    ]

    single :
        (r : Bool × Bytes)
        → Consumes (OneOf (char b':')) s r
        → RoundReads s (
            if r.0
            then (if index == 0 || length r.1 == 0
                then give (false, r.1)
                else go_on index found r.1)
            else leave)
    single (true, t) (pre, e, h) = elim (Bool-cases (index == 0 || length t == 0)) [
      | inl refused ↦ rw refused tt
      | inr fine ↦ rw fine (pre, e, char_text b':' pre colon_literal h)
    ]
    single (false, t) h = tt

    two :
        (r : Bool × Bytes)
        → Consumes (Exactly (b':' ∷ b':' ∷ [])) s r
        → RoundReads s (
            if r.0
            then (if (consume (char b':') r.1).0 || ltb 7 index || found
                then give (false, (consume (char b':') r.1).1)
                else go_on (index + 1) true (consume (char b':') r.1).1)
            else if (consume (char b':') s).0
            then (if index == 0 || length (consume (char b':') s).1 == 0
                then give (false, (consume (char b':') s).1)
                else go_on index found (consume (char b':') s).1)
            else leave)
    two (true, t) (pre, e, h) =
        third t pre e h (consume (char b':') t) (Recognises-consume (char b':') t)
    two (false, t) h = single (consume (char b':') s) (Recognises-consume (char b':') s)
