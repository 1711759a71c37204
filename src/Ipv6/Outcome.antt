-- ===== src/Ipv6/Outcome.antt =====
-- The outcome of a parse with a loop on fuel. `failed` is `false`, or `std::nullopt`; the program has
-- nothing for `out_of_fuel`.
use protovalidate_cc.Base.{Bool, true, false}

pub data Result {ℓ} (A : Type ℓ) : Type ℓ where
  ok : A → Result A
  failed out_of_fuel : Result A

abbrev pub bind {ℓ κ} : {A : Type ℓ} {B : Type κ} → Result A → (A → Result B) → Result B
bind (ok a) f = f a
bind failed f = failed
bind out_of_fuel f = out_of_fuel

-- `.has_value()`
abbrev pub has_value {ℓ} : {A : Type ℓ} → Result A → Bool
has_value (ok a) = true
has_value failed = false
has_value out_of_fuel = false
