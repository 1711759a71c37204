-- ===== src/Proto/Result.antt =====
-- `if (!_.ok()) return _.status();`: a StatusOr and what is done with its value.
use protovalidate_cc.Proto.Types.{StatusOr, value, failure}

abbrev pub pure {ℓ} : {A : Type ℓ} → A → StatusOr A
pure = value

infixl 5 ◌>>=◌
abbrev pub ◌>>=◌ {ℓ κ} : {A : Type ℓ} {B : Type κ} → StatusOr A → (A → StatusOr B) → StatusOr B
value a >>= f = f a
failure code message >>= f = failure code message
