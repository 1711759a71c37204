-- ===== src/Uri.antt =====
-- buf/validate/internal/lib/uri.cc: the recursive-descent recogniser of URIs and URI references.
-- A method is a function from the view to its Boolean and the view that it leaves in `str`.
pub mod Steps
pub mod Language
pub mod Loops
pub mod Percent
pub mod Path
pub mod Authority
pub mod Sound
use protovalidate_cc.Base.{ℕ, Bool, true, false, ◌&&◌, [], ◌∷◌, if◌then◌else◌, ◌==◌, Bytes, length}
use protovalidate_cc.Parser.Chars.{alpha, alpha_num, char, concat_ranges, consume, consume_sequence}
use Authority.{consume_authority}
use Path.{
  consume_path_abempty, consume_path_absolute, consume_path_noscheme, consume_path_rootless,
  consume_path_empty, consume_query, consume_fragment,
}
use Steps.{Method, ◌&&&◌, ◌|||◌, restore, restoring, test, peek, skip}

unfoldable pub consume_scheme : Method
unfolding consume alpha alpha_num char concat_ranges skip
consume_scheme = restoring (
    consume alpha &&& λ s.
    test (peek b':')
      (skip (consume (concat_ranges (alpha_num ∷ char b'+' ∷ char b'-' ∷ char b'.' ∷ []))) s))

unfoldable pub consume_hier_part : Method
unfolding consume_authority consume_path_abempty consume_path_absolute consume_path_rootless
    consume_path_empty consume_sequence
consume_hier_part =
    restoring (consume_sequence (b'/' ∷ b'/' ∷ []) &&& consume_authority &&& consume_path_abempty)
    ||| consume_path_absolute
    ||| consume_path_rootless
    ||| consume_path_empty

unfoldable pub consume_relative_part : Method
unfolding consume_authority consume_path_abempty consume_path_absolute consume_path_noscheme
    consume_path_empty consume_sequence
consume_relative_part =
    restoring (consume_sequence (b'/' ∷ b'/' ∷ []) &&& consume_authority &&& consume_path_abempty)
    ||| consume_path_absolute
    ||| consume_path_noscheme
    ||| consume_path_empty

-- `consume<mark>() && !part()` returns false; else the method goes on
abbrev pub optional_part : ℕ → Method → Method
optional_part mark part s = let m = consume (char mark) s in if m.0 then part m.1 else (true, m.1)

unfoldable pub consume_query_and_fragment : Method
unfolding consume char consume_query consume_fragment
consume_query_and_fragment =
    optional_part b'?' consume_query &&& optional_part b'#' consume_fragment

unfoldable pub consume_uri : Method
unfolding consume_scheme consume_hier_part consume_query_and_fragment consume char
consume_uri =
    restoring (
      (consume_scheme &&& consume (char b':') &&& consume_hier_part) &&& consume_query_and_fragment)

unfoldable pub consume_relative_ref : Method
unfolding consume_relative_part consume_query_and_fragment
consume_relative_ref start =
    (consume_relative_part &&& λ s. restore start (consume_query_and_fragment s)) start

-- `method() && str.empty()`
abbrev pub consumes_all : Method → Bytes → Bool
consumes_all p str = let r = p str in r.0 && length r.1 == 0

unfoldable pub validate_uri : Bytes → Bool
unfolding consume_uri
validate_uri = consumes_all consume_uri

unfoldable pub validate_uri_reference : Bytes → Bool
unfolding consume_uri consume_relative_ref
validate_uri_reference = consumes_all (consume_uri ||| consume_relative_ref)
