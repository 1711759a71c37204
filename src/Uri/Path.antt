-- ===== src/Uri/Path.antt =====
-- Segments, paths, the query and the fragment of uri.cc.
pub mod Sound
use protovalidate_cc.Base.{
  ℕ, Bool, true, false, not, ◌||◌, ◌&&◌, List, [], ◌∷◌, ◌++◌, ◌==◌, if◌then◌else◌, Bytes,
}
use protovalidate_cc.Parser.Chars.{char, concat_ranges, consume}
use protovalidate_cc.Uri.Percent.{consume_percent_encoded}
use protovalidate_cc.Uri.Steps.{
  Method, ◌&&&◌, ◌|||◌, restoring, test, peek, skip, unreserved, sub_delims,
}

-- `operator!=` of views, by content
unfoldable pub differs : Bytes → Bytes → Bool
differs [] [] = false
differs (a ∷ s) (b ∷ t) = not (a == b) || differs s t
differs _ _ = true

unfoldable pub is_path_end : Bytes → Bool
is_path_end [] = true
is_path_end (c ∷ s) = c == b'?' || c == b'#'

-- the sequences of the template arguments `T...` come last
unfoldable pub consume_pchar : List ℕ → Method
unfolding consume unreserved sub_delims char concat_ranges consume_percent_encoded
consume_pchar extra =
    consume (concat_ranges (unreserved ∷ sub_delims ∷ char b':' ∷ char b'@' ∷ extra ∷ []))
    ||| consume_percent_encoded

unfoldable pub consume_segment : Method
unfolding skip consume_pchar
consume_segment s = (true, skip (consume_pchar []) s)

unfoldable pub consume_segment_nz : Method
unfolding consume_pchar consume_segment
consume_segment_nz = consume_pchar [] &&& consume_segment

unfoldable pub consume_segment_nz_nc : Method
unfolding skip consume unreserved sub_delims char concat_ranges consume_percent_encoded differs
consume_segment_nz_nc start =
    let s =
      skip
        (consume (concat_ranges (unreserved ∷ sub_delims ∷ char b'@' ∷ []))
          ||| consume_percent_encoded)
        start in
    (differs s start, s)

-- `while (consume<Char<'/'>>() && consumeSegment()) {}`
unfoldable pub segments : Bytes → Bytes
unfolding skip consume char consume_segment
segments = skip (consume (char b'/') &&& consume_segment)

unfoldable pub segments_to_end : Method
unfolding segments is_path_end
segments_to_end s = test is_path_end (segments s)

unfoldable pub consume_path_abempty : Method
unfolding segments_to_end
consume_path_abempty = restoring segments_to_end

unfoldable pub consume_path_absolute : Method
unfolding consume char consume_segment_nz segments is_path_end
consume_path_absolute = restoring (
    consume (char b'/') &&& λ s.
    let nz = consume_segment_nz s in test is_path_end (if nz.0 then segments nz.1 else nz.1))

unfoldable pub consume_path_noscheme : Method
unfolding consume_segment_nz_nc segments_to_end
consume_path_noscheme = restoring (consume_segment_nz_nc &&& segments_to_end)

unfoldable pub consume_path_rootless : Method
unfolding consume_segment_nz segments_to_end
consume_path_rootless = restoring (consume_segment_nz &&& segments_to_end)

unfoldable pub consume_path_empty : Method
unfolding is_path_end
consume_path_empty = test is_path_end

abbrev pub query_extra : List ℕ
query_extra = b'/' ∷ b'?' ∷ []

unfoldable pub is_query_end : Bytes → Bool
is_query_end [] = true
is_query_end (c ∷ s) = c == b'#'

unfoldable pub is_end : Bytes → Bool
is_end [] = true
is_end (c ∷ s) = false

unfoldable pub consume_query : Method
unfolding skip consume_pchar is_query_end
consume_query = restoring λ s. test is_query_end (skip (consume_pchar query_extra) s)

unfoldable pub consume_fragment : Method
unfolding skip consume_pchar is_end
consume_fragment = restoring λ s. test is_end (skip (consume_pchar query_extra) s)
