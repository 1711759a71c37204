-- ===== src/ExtraFunc/Port.antt =====
-- IsPort of buf/validate/internal/extra_func.cc. Abseil's SimpleAtoi is a parameter.
pub mod Laws
use protovalidate_cc.Base.{
  ℕ, ◌<◌, ◌^◌, ◌≡◌, Bool, true, false, ◌&&◌, Option, none, some, [], ◌∷◌, ◌==◌, leb, ltb, within,
  if◌then◌else◌, Bytes, length,
}
use protovalidate_cc.Parser.Number.Decimal.{decimal_value}
use protovalidate_cc.Uri.Steps.{peek}

-- `absl::SimpleAtoi` into a `uint32_t`: on a run of decimal digits it gives their value, and fails
-- where the type cannot hold it.
pub record SimpleAtoi : Type 0 where
  pub convert : Bytes → Option ℕ
  pub converts :
      (c : ℕ) (text : Bytes) (v : ℕ)
      → decimal_value 0 (c ∷ text) ≡ some v
      → convert (c ∷ text) ≡ (if ltb v (2 ^ 32) then some v else none)

-- the loop over the characters
unfoldable pub all_digits : Bytes → Bool
all_digits [] = true
all_digits (c ∷ cs) = if within b'0' b'9' c then all_digits cs else false

unfoldable pub is_port : SimpleAtoi → Bytes → Bool
unfolding all_digits
is_port atoi s =
    if length s == 0
    then false
    else if ltb 1 (length s) && peek b'0' s
    then false
    else if all_digits s
    then elim (atoi.convert s) [ none ↦ false | some port ↦ leb port 65535 ]
    else false
