-- ===== src/Uri/Authority/Literal/Sound.antt =====
-- What the IP literals of uri.cc read, in the words of RFC 3986 and RFC 6874.
use mathlib.Core.Path.{subst}
use protovalidate_cc.Base.{
  ℕ, zero, suc, ◌+◌, ◌≡◌, ◌≢◌, refl, sym, ap, ◌∙◌, inl, inr, Bool, true, false, ◌&&◌, ◌||◌, [], ◌∷◌,
  ◌++◌, append_assoc, append-nil, ltb, ◌==◌, Bytes, length, Bool-cases, if◌then◌else◌, arith,
}
use protovalidate_cc.Parser.Chars.{char, hex_digit, concat_ranges, consume, consume_sequence}
use protovalidate_cc.Uri.Authority.Literal.Rounds.{
  literal_chars, LiteralText, Recognises-hexadecatet, Reads-quad, RoundReads, colons-RoundReads,
}
use protovalidate_cc.Uri.Authority.Literal.{
  skip_hexadecatet, consume_zone_id, sees_quad, literal_end, LiteralRound, go_on, leave, give,
  literal_colons, literal_round, literal_loop, consume_ipv6_address, future_tail,
  consume_ipv_future, consume_ip_literal,
}
use protovalidate_cc.Uri.Language.{
  Language, OneOf, Exactly, Cat, cat, Alt, left, right, Star, none_of, Opt, Yields, Consumes, Reads,
  Recognises, Recognises-Reads, Recognises-restoring, Reads-&&&, Recognises-|||, Recognises-consume,
  Recognises-consume_sequence, Skips, skip-Skips, Star-append, Yields-and_then, Reads-|||,
}
use protovalidate_cc.Uri.Path.Sound.{differs_self}
use protovalidate_cc.Uri.Path.{differs}
use protovalidate_cc.Uri.Percent.Sound.{PctEncoded, Recognises-code_point}
use protovalidate_cc.Uri.Steps.{Method, ◌&&&◌, skip, unreserved, sub_delims}

-- ZoneID = 1*( unreserved / pct-encoded ), of RFC 6874
abbrev pub ZoneId : Language
ZoneId s = Star (Alt (OneOf unreserved) (Star PctEncoded)) s × (s ≢ [])

abbrev pub Ipv6Literal : Language
Ipv6Literal = Cat LiteralText (Opt (Cat (Exactly (b'%' ∷ b'2' ∷ b'5' ∷ [])) ZoneId))

-- IPvFuture = "v" 1*HEXDIG "." 1*( unreserved / sub-delims / ":" )
abbrev pub FutureTail : Language
FutureTail s = Star (OneOf (concat_ranges (unreserved ∷ sub_delims ∷ char b':' ∷ []))) s × (s ≢ [])

abbrev pub IpvFuture : Language
IpvFuture =
    Cat (OneOf (char b'v'))
      (Cat (OneOf hex_digit) (Cat (Star (OneOf hex_digit)) (Cat (OneOf (char b'.')) FutureTail)))

-- IP-literal = "[" ( IPv6address / IPvFuture ) "]"
abbrev pub IpLiteral : Language
IpLiteral =
    Cat (OneOf (char b'['))
      (Alt (Cat Ipv6Literal (OneOf (char b']'))) (Cat IpvFuture (OneOf (char b']'))))

-- A view that differs from where it started has moved.
moved_on : (pre t : Bytes) → differs (pre ++ t) t ≡ true → pre ≢ []
moved_on [] t h e = absurd (ground (arith, differs_self t))
moved_on (c ∷ pre) t h e = absurd (ground arith)

-- A loop that has to read something.
Reads-nonempty :
    (P : Language) (p : Method)
    → Recognises P p
    → Reads (λ s. Star P s × (s ≢ [])) (λ s. (differs s (skip p s), skip p s))
Reads-nonempty P p h s = go (skip p s) (skip-Skips P p h s)
  where
    go : (t : Bytes) → Skips P s t → Yields (λ s. Star P s × (s ≢ [])) s (differs s t, t)
    go t (pre, e, chars) = elim (Bool-cases (differs s t)) [
      | inl moved ↦
          rw moved (pre, e, (chars, moved_on pre t (subst (λ x. differs x t ≡ true) e moved)))
      | inr stays ↦ rw stays tt
    ]

Reads-zone_id : Reads ZoneId consume_zone_id
unfolding consume_zone_id
Reads-zone_id =
    Reads-nonempty _ _
      (Recognises-||| _ _ _ _ (Recognises-consume unreserved) Recognises-code_point)

Reads-future_tail : Reads FutureTail future_tail
unfolding future_tail
Reads-future_tail =
    Reads-nonempty _ _
      (Recognises-consume (concat_ranges (unreserved ∷ sub_delims ∷ char b':' ∷ [])))

-- One round.
round-RoundReads :
    (index : ℕ) (found : Bool) (s : Bytes) → RoundReads s (literal_round index found s)
unfolding literal_round
round-RoundReads index found s = elim (Bool-cases ((found || index == 6) && sees_quad s)) [
  | inl quad ↦ rw quad (Reads-quad s)
  | inr other ↦ rw other (go (skip_hexadecatet s) (Recognises-hexadecatet s))
]
  where
    go :
        (r : Bool × Bytes)
        → Consumes LiteralText s r
        → RoundReads s (if r.0 then go_on (index + 1) found r.1 else literal_colons index found s)
    go (true, t) h = h
    go (false, t) h = colons-RoundReads index found s

abbrev ZoneSuffix : Language
ZoneSuffix = Opt (Cat (Exactly (b'%' ∷ b'2' ∷ b'5' ∷ [])) ZoneId)

Reads-literal_end : (index : ℕ) (found : Bool) → Reads ZoneSuffix (literal_end index found)
unfolding literal_end
Reads-literal_end index found s = elim (Bool-cases (found || index == 8)) [
  | inl whole ↦ rw whole (
      percent (consume_sequence (b'%' ∷ b'2' ∷ b'5' ∷ []) s)
        (Recognises-consume_sequence (b'%' ∷ b'2' ∷ b'5' ∷ []) s))
  | inr part ↦ rw part tt
]
  where
    zone :
        (t pre : Bytes)
        → s ≡ pre ++ t
        → pre ≡ b'%' ∷ b'2' ∷ b'5' ∷ []
        → (r : Bool × Bytes) → Yields ZoneId t r
        → Yields ZoneSuffix s r
    zone t pre e mark (true, u) (mid, e', text) =
        (pre ++ mid, e ∙ ap (◌++◌ pre) e' ∙ sym (append_assoc pre mid u), right (cat mark text))
    zone t pre e mark (false, u) h = tt

    percent :
        (r : Bool × Bytes)
        → Consumes (Exactly (b'%' ∷ b'2' ∷ b'5' ∷ [])) s r
        → Yields ZoneSuffix s (if r.0 then consume_zone_id r.1 else (true, r.1))
    percent (true, t) (pre, e, mark) = zone t pre e mark (consume_zone_id t) (Reads-zone_id t)
    percent (false, t) h = ([], sym h, left refl)

-- More text in front of a literal.
Yields-front :
    (s t pre : Bytes)
    → s ≡ pre ++ t
    → LiteralText pre
    → (r : Bool × Bytes) → Yields Ipv6Literal t r
    → Yields Ipv6Literal s r
Yields-front s t pre e text (false, u) h = tt
Yields-front s t pre e text (true, u) (mid, e', h) =
    (pre ++ mid, e ∙ ap (◌++◌ pre) e' ∙ sym (append_assoc pre mid u), longer mid h)
  where
    longer : (mid : Bytes) → Ipv6Literal mid → Ipv6Literal (pre ++ mid)
    longer _ (cat {s = a} {t = b} h k) =
        subst Ipv6Literal (append_assoc pre a b)
          (cat (Star-append (OneOf literal_chars) a text h) k)

Yields-text : (s : Bytes) (r : Bool × Bytes) → Yields LiteralText s r → Yields Ipv6Literal s r
Yields-text s (false, u) h = tt
Yields-text s (true, u) (pre, e, h) =
    (pre, e, subst Ipv6Literal (append-nil pre) (cat h (left refl)))

Yields-suffix : (s : Bytes) (r : Bool × Bytes) → Yields ZoneSuffix s r → Yields Ipv6Literal s r
Yields-suffix s (false, u) h = tt
Yields-suffix s (true, u) (pre, e, h) = (pre, e, cat none_of h)

Reads-literal_loop :
    (fuel index : ℕ) (found : Bool) → Reads Ipv6Literal (literal_loop fuel index found)
unfolding literal_loop
Reads-literal_loop zero index found s = tt
Reads-literal_loop (suc fuel) index found s =
    go (ltb index 8) (literal_round index found s) (round-RoundReads index found s)
      (Reads-literal_loop fuel)
  where
    at_end : Yields Ipv6Literal s (literal_end index found s)
    at_end = Yields-suffix s (literal_end index found s) (Reads-literal_end index found s)

    go :
        (below : Bool) (r : LiteralRound)
        → RoundReads s r
        → ((i : ℕ) (found : Bool) → Reads Ipv6Literal (literal_loop fuel i found))
        → Yields Ipv6Literal s (elim below [
          | false ↦ literal_end index found s
          | true ↦ elim r [
            | go_on i found t ↦ literal_loop fuel i found t
            | leave ↦ literal_end index found s
            | give r ↦ r
          ]
        ])
    go false r h ih = at_end
    go true (go_on i more t) (pre, e, text) ih =
        Yields-front s t pre e text (literal_loop fuel i more t) (ih i more t)
    go true leave h ih = at_end
    go true (give r) h ih = Yields-text s r h

Reads-ipv6_address : Reads Ipv6Literal consume_ipv6_address
unfolding consume_ipv6_address
Reads-ipv6_address s = Reads-literal_loop (suc (length s)) 0 false s

-- The digits behind the first, the dot and the rest of an IPvFuture.
Reads-hex_dot_tail :
    Reads
      (Cat (Star (OneOf hex_digit)) (Cat (OneOf (char b'.')) FutureTail))
      (λ s. (consume (char b'.') &&& future_tail) (skip (consume hex_digit) s))
Reads-hex_dot_tail s =
    go (skip (consume hex_digit) s)
      (skip-Skips (OneOf hex_digit) (consume hex_digit) (Recognises-consume hex_digit) s)
  where
    go :
        (t : Bytes)
        → Skips (OneOf hex_digit) s t
        → Yields
            (Cat (Star (OneOf hex_digit)) (Cat (OneOf (char b'.')) FutureTail))
            s
            ((consume (char b'.') &&& future_tail) t)
    go t digits =
        Yields-and_then (Star (OneOf hex_digit)) (Cat (OneOf (char b'.')) FutureTail) s (true, t)
          (consume (char b'.') &&& future_tail) digits
          (Reads-&&& _ _ _ _ (Recognises-Reads _ _ (Recognises-consume (char b'.')))
            Reads-future_tail)

Recognises-ipv_future : Recognises IpvFuture consume_ipv_future
unfolding consume_ipv_future
Recognises-ipv_future = Recognises-restoring _ _ (
    Reads-&&& _ _ _ _ (Recognises-Reads _ _ (Recognises-consume (char b'v')))
      (Reads-&&& _ _ _ _ (Recognises-Reads _ _ (Recognises-consume hex_digit)) Reads-hex_dot_tail))

closed :
    (P : Language) (p : Method)
    → Reads P p
    → Reads (Cat P (OneOf (char b']'))) (p &&& consume (char b']'))
closed P p h = Reads-&&& _ _ _ _ h (Recognises-Reads _ _ (Recognises-consume (char b']')))

pub Recognises-ip_literal : Recognises IpLiteral consume_ip_literal
unfolding consume_ip_literal
Recognises-ip_literal = Recognises-restoring _ _ (
    Reads-&&& _ _ _ _ (Recognises-Reads _ _ (Recognises-consume (char b'['))) (
      Reads-||| _ _ _ _
        (Recognises-restoring _ _ (closed _ consume_ipv6_address Reads-ipv6_address))
        (closed _ consume_ipv_future (Recognises-Reads _ _ Recognises-ipv_future))))
