-- ===== src/Parser/Chars.antt =====
-- Character sequences, `consume` and `consumeSequence` of
-- buf/validate/internal/lib/parser_common.h.
pub mod Laws
use protovalidate_cc.Base.{
  ℕ, zero, suc, ◌+◌, ◌-◌, Bool, true, false, not, ◌||◌, List, [], ◌∷◌, ◌++◌, ◌==◌, ltb,
  if◌then◌else◌, Bytes, length, drop,
}

-- `add + n...` for the indices 0, 1, …, size - 1
unfoldable pub char_seq_from_indices : ℕ → ℕ → List ℕ
char_seq_from_indices add zero = []
char_seq_from_indices add (suc size) = add ∷ char_seq_from_indices (add + 1) size

unfoldable pub char_range : ℕ → ℕ → List ℕ
unfolding char_seq_from_indices
char_range start end = char_seq_from_indices start (end + 1 - start)

unfoldable pub char : ℕ → List ℕ
unfolding char_range
char n = char_range n n

unfoldable pub concat_ranges : List (List ℕ) → List ℕ
concat_ranges [] = []
concat_ranges (head ∷ tail) = head ++ concat_ranges tail

unfoldable pub num : List ℕ
unfolding char_range
num = char_range b'0' b'9'

unfoldable pub alpha : List ℕ
unfolding char_range concat_ranges
alpha = concat_ranges (char_range b'a' b'z' ∷ char_range b'A' b'Z' ∷ [])

unfoldable pub alpha_num : List ℕ
unfolding alpha num concat_ranges
alpha_num = concat_ranges (alpha ∷ num ∷ [])

unfoldable pub hex_digit : List ℕ
unfolding num char_range concat_ranges
hex_digit = concat_ranges (num ∷ char_range b'a' b'f' ∷ char_range b'A' b'F' ∷ [])

-- is the character one of the sequence?
unfoldable pub char_match_range : List ℕ → ℕ → Bool
char_match_range [] value = false
char_match_range (head ∷ tail) value = value == head || char_match_range tail value

unfoldable pub consume : List ℕ → Bytes → Bool × Bytes
unfolding char_match_range
consume seq [] = (false, [])
consume seq (c ∷ str) = if char_match_range seq c then (true, str) else (false, c ∷ str)

unfoldable pub sequence_match : List ℕ → Bytes → Bool
sequence_match [] str = true
sequence_match (head ∷ tail) [] = false
sequence_match (head ∷ tail) (c ∷ str) = if not (c == head) then false else sequence_match tail str

unfoldable pub consume_sequence : List ℕ → Bytes → Bool × Bytes
unfolding sequence_match
consume_sequence cs str =
    if ltb (length str) (length cs) || not (sequence_match cs str)
    then (false, str)
    else (true, drop (length cs) str)
