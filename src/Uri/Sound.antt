-- ===== src/Uri/Sound.antt =====
-- What `validateUri` and `validateUriReference` of uri.cc accept is in the grammar of RFC 3986.
use protovalidate_cc.Base.{
  ℕ, ◌≡◌, refl, sym, ap, ◌∙◌, Bool, true, false, ◌&&◌, [], ◌∷◌, ◌++◌, append_assoc, append-nil,
  Bytes, length, ◌==◌, arith, if◌then◌else◌,
}
use mathlib.Core.Path.{subst}
use protovalidate_cc.Parser.Chars.{alpha, alpha_num, char, concat_ranges, consume, consume_sequence}
use protovalidate_cc.Uri.Authority.Sound.{Authority, Recognises-authority}
use protovalidate_cc.Uri.Authority.{consume_authority}
use protovalidate_cc.Uri.Language.{
  Language, OneOf, Exactly, Cat, cat, Alt, left, right, Star, Opt, Yields, Consumes, Reads,
  Recognises, Recognises-Reads, Recognises-restoring, Reads-&&&, Recognises-|||, Recognises-consume,
  Recognises-consume_sequence, skip-Skips, Yields-skipped, Reads-|||,
}
use protovalidate_cc.Uri.Path.Sound.{
  PathAbempty, PathAbsolute, PathNoscheme, PathRootless, Query, Recognises-path_abempty,
  Recognises-path_absolute, Recognises-path_noscheme, Recognises-path_rootless,
  Recognises-path_empty, Recognises-query, Recognises-fragment,
}
use protovalidate_cc.Uri.Path.{consume_path_abempty, consume_query, consume_fragment}
use protovalidate_cc.Uri.Steps.{Method, ◌&&&◌, ◌|||◌, restore, restoring}
use protovalidate_cc.Uri.{
  consume_scheme, consume_hier_part, consume_relative_part, optional_part,
  consume_query_and_fragment, consume_uri, consume_relative_ref, consumes_all, validate_uri,
  validate_uri_reference,
}

-- scheme = ALPHA *( ALPHA / DIGIT / "+" / "-" / "." )
abbrev pub Scheme : Language
Scheme =
    Cat (OneOf alpha)
      (Star (OneOf (concat_ranges (alpha_num ∷ char b'+' ∷ char b'-' ∷ char b'.' ∷ []))))

abbrev pub SlashSlash : Language
SlashSlash = Cat (Exactly (b'/' ∷ b'/' ∷ [])) (Cat Authority PathAbempty)

-- hier-part = "//" authority path-abempty / path-absolute / path-rootless / path-empty
abbrev pub HierPart : Language
HierPart = Alt SlashSlash (Alt PathAbsolute (Alt PathRootless (Exactly [])))

-- relative-part = "//" authority path-abempty / path-absolute / path-noscheme / path-empty
abbrev pub RelativePart : Language
RelativePart = Alt SlashSlash (Alt PathAbsolute (Alt PathNoscheme (Exactly [])))

-- [ "?" query ] [ "#" fragment ]
abbrev pub QueryAndFragment : Language
QueryAndFragment = Cat (Opt (Cat (OneOf (char b'?')) Query)) (Opt (Cat (OneOf (char b'#')) Query))

-- URI = scheme ":" hier-part [ "?" query ] [ "#" fragment ]
abbrev pub UriText : Language
UriText = Cat (Cat Scheme (Cat (OneOf (char b':')) HierPart)) QueryAndFragment

-- relative-ref = relative-part [ "?" query ] [ "#" fragment ]
abbrev pub RelativeRef : Language
RelativeRef = Cat RelativePart QueryAndFragment

-- URI-reference = URI / relative-ref
abbrev pub UriReference : Language
UriReference = Alt UriText RelativeRef

Recognises-scheme : Recognises Scheme consume_scheme
unfolding consume_scheme
Recognises-scheme = Recognises-restoring _ _ (
    Reads-&&& _ _ _ _ (Recognises-Reads _ _ (Recognises-consume alpha)) λ s.
      Yields-skipped _ s _ _ (
        skip-Skips _ _
          (Recognises-consume (concat_ranges (alpha_num ∷ char b'+' ∷ char b'-' ∷ char b'.' ∷ [])))
          s))

Recognises-slash_slash :
    Recognises SlashSlash (
      restoring
        (consume_sequence (b'/' ∷ b'/' ∷ []) &&& consume_authority &&& consume_path_abempty))
Recognises-slash_slash = Recognises-restoring _ _ (
    Reads-&&& _ _ _ _ (Recognises-Reads _ _ (Recognises-consume_sequence (b'/' ∷ b'/' ∷ []))) (
      Reads-&&& _ _ _ _ (Recognises-Reads _ _ Recognises-authority)
        (Recognises-Reads _ _ Recognises-path_abempty)))

Recognises-hier_part : Recognises HierPart consume_hier_part
unfolding consume_hier_part
Recognises-hier_part = Recognises-||| _ _ _ _ Recognises-slash_slash (
    Recognises-||| _ _ _ _ Recognises-path_absolute
      (Recognises-||| _ _ _ _ Recognises-path_rootless Recognises-path_empty))

Recognises-relative_part : Recognises RelativePart consume_relative_part
unfolding consume_relative_part
Recognises-relative_part = Recognises-||| _ _ _ _ Recognises-slash_slash (
    Recognises-||| _ _ _ _ Recognises-path_absolute
      (Recognises-||| _ _ _ _ Recognises-path_noscheme Recognises-path_empty))

Reads-optional_part :
    (mark : ℕ) (P : Language) (part : Method)
    → Reads P part
    → Reads (Opt (Cat (OneOf (char mark)) P)) (optional_part mark part)
Reads-optional_part mark P part h s = go (consume (char mark) s) (Recognises-consume (char mark) s)
  where
    behind :
        (t pre : Bytes)
        → s ≡ pre ++ t
        → OneOf (char mark) pre
        → (r : Bool × Bytes) → Yields P t r
        → Yields (Opt (Cat (OneOf (char mark)) P)) s r
    behind t pre e found (true, u) (mid, e', text) =
        (pre ++ mid, e ∙ ap (◌++◌ pre) e' ∙ sym (append_assoc pre mid u), right (cat found text))
    behind t pre e found (false, u) _ = tt

    go :
        (r : Bool × Bytes)
        → Consumes (OneOf (char mark)) s r
        → Yields (Opt (Cat (OneOf (char mark)) P)) s (if r.0 then part r.1 else (true, r.1))
    go (true, t) (pre, e, found) = behind t pre e found (part t) (h t)
    go (false, t) e = ([], sym e, left refl)

Reads-query_and_fragment : Reads QueryAndFragment consume_query_and_fragment
unfolding consume_query_and_fragment
Reads-query_and_fragment =
    Reads-&&& _ _ _ _
      (Reads-optional_part b'?' Query consume_query (Recognises-Reads _ _ Recognises-query))
      (Reads-optional_part b'#' Query consume_fragment (Recognises-Reads _ _ Recognises-fragment))

Recognises-uri : Recognises UriText consume_uri
unfolding consume_uri
Recognises-uri = Recognises-restoring _ _ (
    Reads-&&& _ _ _ _
      (Reads-&&& _ _ _ _ (Recognises-Reads _ _ Recognises-scheme) (
        Reads-&&& _ _ _ _ (Recognises-Reads _ _ (Recognises-consume (char b':')))
          (Recognises-Reads _ _ Recognises-hier_part)))
      Reads-query_and_fragment)

-- Behind the relative part the view goes back to the start where the query or the fragment fails.
Reads-restored :
    (P : Language) (p : Method) (start : Bytes) → Reads P p → Reads P (λ s. restore start (p s))
Reads-restored P p start h s = go (p s) (h s)
  where
    go : (r : Bool × Bytes) → Yields P s r → Yields P s (restore start r)
    go (true, t) k = k
    go (false, t) k = tt

Reads-relative_ref : Reads RelativeRef consume_relative_ref
unfolding consume_relative_ref
Reads-relative_ref start =
    Reads-&&& _ _ _ (λ s. restore start (consume_query_and_fragment s))
      (Recognises-Reads _ _ Recognises-relative_part)
      (Reads-restored _ _ start Reads-query_and_fragment) start

-- A method that has read the whole view has read a text of its language.
consumes_all_sound :
    (P : Language) (p : Method) → Reads P p → (s : Bytes) → consumes_all p s ≡ true → P s
consumes_all_sound P p h s = go (p s) (h s)
  where
    go : (r : Bool × Bytes) → Yields P s r → (r.0 && length r.1 == 0) ≡ true → P s
    go (true, []) (pre, e, text) k = subst P (sym (e ∙ append-nil pre)) text
    go (true, c ∷ t) y k = absurd (ground arith)
    go (false, t) y k = absurd (ground arith)

-- Whatever `validateUri` accepts is a URI of the grammar, all of it.
pub validate_uri_sound : (s : Bytes) → validate_uri s ≡ true → UriText s
unfolding validate_uri
validate_uri_sound s h =
    consumes_all_sound UriText consume_uri (Recognises-Reads _ _ Recognises-uri) s h

-- Whatever `validateUriReference` accepts is a URI or a relative reference of the grammar, all
-- of it.
pub validate_uri_reference_sound : (s : Bytes) → validate_uri_reference s ≡ true → UriReference s
unfolding validate_uri_reference
validate_uri_reference_sound s h =
    consumes_all_sound UriReference (consume_uri ||| consume_relative_ref)
      (Reads-||| _ _ _ _ Recognises-uri Reads-relative_ref) s h
