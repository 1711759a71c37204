-- ===== src/Uri/Path/Sound.antt =====
-- What the path, query and fragment methods of uri.cc read, in the words of RFC 3986.
use mathlib.Core.Path.{subst}
use protovalidate_cc.Base.{
  ℕ, ◌≡◌, ◌≢◌, refl, sym, ap, ◌∙◌, Bool, true, false, List, [], ◌∷◌, ◌++◌, append_assoc, arith,
  Bytes, if◌then◌else◌, inl, inr, Bool-cases,
}
use protovalidate_cc.Parser.Chars.{char, concat_ranges, consume}
use protovalidate_cc.Uri.Language.{
  Language, OneOf, Exactly, Cat, cat, Alt, left, right, Star, Opt, Yields, Consumes, Reads,
  Recognises, Recognises-Reads, Recognises-restoring, Reads-&&&, Recognises-|||, Recognises-consume,
  Skips, skip-Skips, Yields-skipped,
}
use protovalidate_cc.Uri.Path.{
  differs, is_path_end, consume_pchar, consume_segment, consume_segment_nz, consume_segment_nz_nc,
  segments, segments_to_end, consume_path_abempty, consume_path_absolute, consume_path_noscheme,
  consume_path_rootless, consume_path_empty, query_extra, consume_query, consume_fragment,
}
use protovalidate_cc.Uri.Percent.Sound.{PctEncoded, Recognises-percent_encoded}
use protovalidate_cc.Uri.Percent.{consume_percent_encoded}
use protovalidate_cc.Uri.Steps.{Method, ◌&&&◌, ◌|||◌, and_then, test, skip, unreserved, sub_delims}

-- pchar = unreserved / pct-encoded / sub-delims / ":" / "@", and the `extra` characters
abbrev pub Pchar : List ℕ → Language
Pchar extra =
    Alt (OneOf (concat_ranges (unreserved ∷ sub_delims ∷ char b':' ∷ char b'@' ∷ extra ∷ [])))
      PctEncoded

-- segment = *pchar, segment-nz = 1*pchar
abbrev pub Segment : Language
Segment = Star (Pchar [])

abbrev pub SegmentNz : Language
SegmentNz = Cat (Pchar []) Segment

-- segment-nz-nc = 1*( unreserved / pct-encoded / sub-delims / "@" )
abbrev pub SegmentNzNc : Language
SegmentNzNc s =
    Star (Alt (OneOf (concat_ranges (unreserved ∷ sub_delims ∷ char b'@' ∷ []))) PctEncoded) s
    × (s ≢ [])

-- path-abempty = *( "/" segment ), and the other paths
abbrev pub PathAbempty : Language
PathAbempty = Star (Cat (OneOf (char b'/')) Segment)

abbrev pub PathAbsolute : Language
PathAbsolute = Cat (OneOf (char b'/')) (Opt (Cat SegmentNz PathAbempty))

abbrev pub PathNoscheme : Language
PathNoscheme = Cat SegmentNzNc PathAbempty

abbrev pub PathRootless : Language
PathRootless = Cat SegmentNz PathAbempty

-- query = fragment = *( pchar / "/" / "?" )
abbrev pub Query : Language
Query = Star (Pchar query_extra)

pub Recognises-pchar : (extra : List ℕ) → Recognises (Pchar extra) (consume_pchar extra)
unfolding consume_pchar
Recognises-pchar extra =
    Recognises-||| _ _ _ _
      (Recognises-consume
        (concat_ranges (unreserved ∷ sub_delims ∷ char b':' ∷ char b'@' ∷ extra ∷ [])))
      Recognises-percent_encoded

Reads-segment : Reads Segment consume_segment
unfolding consume_segment
Reads-segment s = skip-Skips (Pchar []) (consume_pchar []) (Recognises-pchar []) s

Reads-segment_nz : Reads SegmentNz consume_segment_nz
unfolding consume_segment_nz
Reads-segment_nz = Reads-&&& _ _ _ _ (Recognises-Reads _ _ (Recognises-pchar [])) Reads-segment

-- `/` and a segment: the view is left alone where there is no slash
pub Recognises-slash_segment :
    Recognises (Cat (OneOf (char b'/')) Segment) (consume (char b'/') &&& consume_segment)
unfolding consume_segment
Recognises-slash_segment s = go (consume (char b'/') s) (Recognises-consume (char b'/') s)
  where
    go :
        (r : Bool × Bytes)
        → Consumes (OneOf (char b'/')) s r
        → Consumes (Cat (OneOf (char b'/')) Segment) s (and_then r consume_segment)
    go (true, t) (pre, e, slash) =
        let (mid, e', chars) = skip-Skips (Pchar []) (consume_pchar []) (Recognises-pchar []) t in
        (pre ++ mid, e ∙ ap (◌++◌ pre) e' ∙ sym (append_assoc pre mid _), cat slash chars)
    go (false, t) e = e

segments-Skips : (s : Bytes) → Skips (Cat (OneOf (char b'/')) Segment) s (segments s)
unfolding segments
segments-Skips s = skip-Skips _ (consume (char b'/') &&& consume_segment) Recognises-slash_segment s

Reads-segments_to_end : Reads PathAbempty segments_to_end
unfolding segments_to_end
Reads-segments_to_end s =
    Yields-skipped _ s (segments s) (is_path_end (segments s)) (segments-Skips s)

pub Recognises-path_abempty : Recognises PathAbempty consume_path_abempty
unfolding consume_path_abempty
Recognises-path_abempty = Recognises-restoring _ _ Reads-segments_to_end

pub Recognises-path_rootless : Recognises PathRootless consume_path_rootless
unfolding consume_path_rootless
Recognises-path_rootless =
    Recognises-restoring _ _ (Reads-&&& _ _ _ _ Reads-segment_nz Reads-segments_to_end)

pub differs_self : (t : Bytes) → differs t t ≡ false
unfolding differs
differs_self [] = refl
differs_self (c ∷ t) = ground (arith, differs_self t)

-- A view that differs from where it started has moved.
pub differs_nil : (pre t : Bytes) → differs t (pre ++ t) ≡ true → pre ≢ []
differs_nil [] t h e = absurd (ground (arith, differs_self t))
differs_nil (c ∷ pre) t h e = absurd (ground arith)

abbrev nc_char : Method
nc_char =
    consume (concat_ranges (unreserved ∷ sub_delims ∷ char b'@' ∷ [])) ||| consume_percent_encoded

Recognises-nc_char :
    Recognises
      (Alt (OneOf (concat_ranges (unreserved ∷ sub_delims ∷ char b'@' ∷ []))) PctEncoded)
      nc_char
Recognises-nc_char =
    Recognises-||| _ _ _ _
      (Recognises-consume (concat_ranges (unreserved ∷ sub_delims ∷ char b'@' ∷ [])))
      Recognises-percent_encoded

Reads-segment_nz_nc : Reads SegmentNzNc consume_segment_nz_nc
unfolding consume_segment_nz_nc
Reads-segment_nz_nc s = go (skip nc_char s) (skip-Skips _ nc_char Recognises-nc_char s)
  where
    go :
        (t : Bytes)
        → Skips
            (Alt (OneOf (concat_ranges (unreserved ∷ sub_delims ∷ char b'@' ∷ []))) PctEncoded)
            s
            t
        → Yields SegmentNzNc s (differs t s, t)
    go t (pre, e, chars) = elim (Bool-cases (differs t s)) [
      | inl moved ↦
          rw moved (pre, e, (chars, differs_nil pre t (subst (λ x. differs t x ≡ true) e moved)))
      | inr stays ↦ rw stays tt
    ]

pub Recognises-path_noscheme : Recognises PathNoscheme consume_path_noscheme
unfolding consume_path_noscheme
Recognises-path_noscheme =
    Recognises-restoring _ _ (Reads-&&& _ _ _ _ Reads-segment_nz_nc Reads-segments_to_end)

Recognises-segment_nz : Recognises SegmentNz consume_segment_nz
unfolding consume_segment_nz consume_segment
Recognises-segment_nz s = go (consume_pchar [] s) (Recognises-pchar [] s)
  where
    go :
        (r : Bool × Bytes)
        → Consumes (Pchar []) s r
        → Consumes SegmentNz s (and_then r consume_segment)
    go (true, t) (pre, e, char) =
        let (mid, e', chars) = skip-Skips (Pchar []) (consume_pchar []) (Recognises-pchar []) t in
        (pre ++ mid, e ∙ ap (◌++◌ pre) e' ∙ sym (append_assoc pre mid _), cat char chars)
    go (false, t) e = e

-- behind the slash of an absolute path
absolute_rest : Method
absolute_rest s =
    let nz = consume_segment_nz s in test is_path_end (if nz.0 then segments nz.1 else nz.1)

Reads-absolute_rest : Reads (Opt (Cat SegmentNz PathAbempty)) absolute_rest
unfolding absolute_rest
Reads-absolute_rest s = go (consume_segment_nz s) (Recognises-segment_nz s)
  where
    ended :
        (t : Bytes) (b : Bool)
        → (pre : Bytes) × (s ≡ pre ++ t) × Opt (Cat SegmentNz PathAbempty) pre
        → Yields (Opt (Cat SegmentNz PathAbempty)) s (b, t)
    ended t true h = h
    ended t false h = tt

    go :
        (r : Bool × Bytes)
        → Consumes SegmentNz s r
        → Yields
            (Opt (Cat SegmentNz PathAbempty))
            s
            (test is_path_end (if r.0 then segments r.1 else r.1))
    go (true, t) (pre, e, nz) =
        let (mid, e', rest) = segments-Skips t in
        ended (segments t) (is_path_end (segments t))
          (pre ++ mid, e ∙ ap (◌++◌ pre) e' ∙ sym (append_assoc pre mid _), right (cat nz rest))
    go (false, t) e = ended t (is_path_end t) ([], sym e, left refl)

pub Recognises-path_absolute : Recognises PathAbsolute consume_path_absolute
unfolding consume_path_absolute absolute_rest
Recognises-path_absolute = Recognises-restoring _ _ (
    Reads-&&& _ _ _ absolute_rest (Recognises-Reads _ _ (Recognises-consume (char b'/')))
      Reads-absolute_rest)

pub Recognises-path_empty : Recognises (Exactly []) consume_path_empty
unfolding consume_path_empty
Recognises-path_empty s = go (is_path_end s)
  where
    go : (b : Bool) → Consumes (Exactly []) s (b, s)
    go true = ([], refl, refl)
    go false = refl

pub Recognises-query : Recognises Query consume_query
unfolding consume_query
Recognises-query = Recognises-restoring _ _ λ s.
    Yields-skipped _ s _ _
      (skip-Skips _ (consume_pchar query_extra) (Recognises-pchar query_extra) s)

pub Recognises-fragment : Recognises Query consume_fragment
unfolding consume_fragment
Recognises-fragment = Recognises-restoring _ _ λ s.
    Yields-skipped _ s _ _
      (skip-Skips _ (consume_pchar query_extra) (Recognises-pchar query_extra) s)
