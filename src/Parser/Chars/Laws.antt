-- ===== src/Parser/Chars/Laws.antt =====
-- What the character sequences hold.
use protovalidate_cc.Base.{
  ℕ, zero, suc, ◌+◌, ◌-◌, ◌≤◌, ◌≡◌, refl, ◌&&◌, ◌||◌, List, [], ◌∷◌, ◌++◌, ltb, leb, within, arith,
}
use protovalidate_cc.Parser.Chars.{
  char_seq_from_indices, char_range, num, hex_digit, concat_ranges, char_match_range,
}

char_match_range-indices :
    (size add c : ℕ)
    → char_match_range (char_seq_from_indices add size) c ≡ (leb add c && ltb c (add + size))
unfolding char_match_range char_seq_from_indices
char_match_range-indices zero add c = ground arith
char_match_range-indices (suc size) add c =
    ground (arith, char_match_range-indices size (add + 1) c)

-- `CharRange<start, end>` holds the characters from `start` to `end`, both included.
pub char_match_range-char_range :
    (start end c : ℕ) → start ≤ end → char_match_range (char_range start end) c ≡ within start end c
unfolding char_range
char_match_range-char_range start end c h =
    ground (arith, char_match_range-indices (end + 1 - start) start c)

-- Matching against concatenated ranges is matching against one or the other.
pub char_match_range-append :
    (xs ys : List ℕ) (c : ℕ)
    → char_match_range (xs ++ ys) c ≡ (char_match_range xs c || char_match_range ys c)
unfolding char_match_range
char_match_range-append [] ys c = refl
char_match_range-append (x ∷ xs) ys c = ground (arith, char_match_range-append xs ys c)

three_ranges :
    (a b c d e f x : ℕ)
    → a ≤ b
    → c ≤ d
    → e ≤ f
    → char_match_range (char_range a b ++ (char_range c d ++ (char_range e f ++ []))) x
      ≡ (within a b x || within c d x || within e f x)
unfolding char_match_range
three_ranges a b c d e f x h k l = ground (
  arith,
  char_match_range-append (char_range a b) (char_range c d ++ (char_range e f ++ [])) x,
  char_match_range-append (char_range c d) (char_range e f ++ []) x,
  char_match_range-append (char_range e f) [] x,
  char_match_range-char_range a b x h,
  char_match_range-char_range c d x k,
  char_match_range-char_range e f x l,
)

-- `HexDigit` holds the digits and the letters from a to f of either case.
pub hex_digit_ranges :
    (c : ℕ)
    → char_match_range hex_digit c
      ≡ (within b'0' b'9' c || within b'a' b'f' c || within b'A' b'F' c)
unfolding hex_digit num concat_ranges
hex_digit_ranges c =
    three_ranges b'0' b'9' b'a' b'f' b'A' b'F' c (omega arith) (omega arith) (omega arith)
