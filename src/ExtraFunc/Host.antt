-- ===== src/ExtraFunc/Host.antt =====
-- IsHostname of buf/validate/internal/extra_func.cc. Abseil's string functions are parameters.
pub mod Dots
pub mod Labels
pub mod Laws
use protovalidate_cc.Base.{
  ℕ, Bool, true, false, not, ◌&&◌, ◌||◌, Option, none, some, List, [], ◌∷◌, ◌++◌, ◌≡◌, ◌≢◌, ◌==◌,
  ltb, within, if◌then◌else◌, Bytes, length,
}

abbrev pub NoDot : Bytes → Type 0
NoDot [] = Unit {0}
NoDot (c ∷ s) = (c ≢ b'.') × NoDot s

-- `absl::StripSuffix(_, ".")`, `absl::StrSplit(_, '.')`, and `absl::StartsWith(_, "-")` and
-- `absl::EndsWith(_, "-")`, by what their documentation says of them
pub record Strings : Type 0 where
  pub strip_dot : Bytes → Bytes
  pub split_dots : Bytes → List Bytes
  pub starts_with_dash : Bytes → Bool
  pub ends_with_dash : Bytes → Bool
  pub strips : (s : Bytes) → strip_dot (s ++ (b'.' ∷ [])) ≡ s
  pub keeps : (s : Bytes) (c : ℕ) → c ≢ b'.' → strip_dot (s ++ (c ∷ [])) ≡ s ++ (c ∷ [])
  pub no_split : (s : Bytes) → NoDot s → split_dots s ≡ s ∷ []
  pub splits : (part s : Bytes) → NoDot part → split_dots (part ++ (b'.' ∷ s)) ≡ part ∷ split_dots s
  pub starts : (s : Bytes) (c : ℕ) → starts_with_dash (c ∷ s) ≡ (c == b'-')
  pub ends : (s : Bytes) (c : ℕ) → ends_with_dash (s ++ (c ∷ [])) ≡ (c == b'-')

-- the characters that the inner loop lets through
unfoldable pub is_label_char : ℕ → Bool
is_label_char c = within b'a' b'z' c || within b'A' b'Z' c || within b'0' b'9' c || c == b'-'

-- The inner loop, from a value of `allDigits`; `none` is `return false`.
unfoldable pub label_loop : Bytes → Bool → Option Bool
unfolding is_label_char
label_loop [] all_digits = some all_digits
label_loop (c ∷ cs) all_digits =
    if is_label_char c then label_loop cs (all_digits && within b'0' b'9' c) else none

module _ (strings : Strings) where
  -- the tests in front of the inner loop
  unfoldable pub is_bad_label : Bytes → Bool
  is_bad_label part =
      length part == 0
      || ltb 63 (length part)
      || strings.starts_with_dash part
      || strings.ends_with_dash part

  -- The outer loop, which sets `allDigits` again for each part.
  unfoldable pub labels_loop : List Bytes → Bool → Option Bool
  unfolding is_bad_label label_loop
  labels_loop [] all_digits = some all_digits
  labels_loop (part ∷ parts) all_digits =
      if is_bad_label part
      then none
      else elim (label_loop part true) [ none ↦ none | some digits ↦ labels_loop parts digits ]

  unfoldable pub is_hostname : Bytes → Bool
  unfolding labels_loop
  is_hostname s =
      if length s == 0 || ltb 253 (length s)
      then false
      else elim (labels_loop (strings.split_dots (strings.strip_dot s)) false) [
        | none ↦ false
        | some all_digits ↦ not all_digits
      ]
