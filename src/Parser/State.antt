-- ===== src/Parser/State.antt =====
-- Chains `f() && g() && …` of parser methods whose failure ends the whole parse: the view is the
-- state, and `none` is `false`.
use protovalidate_cc.Base.{
  ◌≡◌, refl, Bool, true, false, Option, none, some, List, [], ◌∷◌, Bytes, ℕ,
}
use protovalidate_cc.Parser.Chars.{consume}

abbrev pub M {ℓ} : Type ℓ → Type ℓ
M A = Bytes → Option (A × Bytes)

abbrev pub pure {ℓ} : {A : Type ℓ} → A → M A
pure a s = some (a, s)

infixl 5 ◌>>=◌ ◌>>◌
abbrev pub ◌>>=◌ {ℓ κ} : {A : Type ℓ} {B : Type κ} → M A → (A → M B) → M B
◌>>=◌ m f s = elim (m s) [ none ↦ none | some (a, t) ↦ f a t ]

abbrev pub ◌>>◌ {ℓ κ} : {A : Type ℓ} {B : Type κ} → M A → M B → M B
m >> k = m >>= λ _. k

abbrev pub require : Bool × Bytes → Option (Unit {0} × Bytes)
require (true, s) = some (tt, s)
require (false, s) = none

-- `consume<seq>()`, in a chain
abbrev pub expect : List ℕ → M (Unit {0})
expect seq s = require (consume seq s)

-- `str.empty()`, at the end of a chain
abbrev pub end : M (Unit {0})
end [] = some (tt, [])
end (c ∷ cs) = none

-- A chain that succeeds has a first step that succeeds, and the rest goes on behind it.
pub >>=-eq-some {ℓ κ μ} :
    {A : Type ℓ} {B : Type κ} {P : Type μ} (m : M A) (f : A → M B) (s : Bytes) {b : B} {u : Bytes}
    → (m >>= f) s ≡ some (b, u)
    → ((a : A) (t : Bytes) → m s ≡ some (a, t) → f a t ≡ some (b, u) → P)
    → P
>>=-eq-some {A = A} {P = P} m f s {b} {u} h k = go (m s) refl h
  where
    go :
        (r : Option (A × Bytes))
        → m s ≡ r
        → elim r [ none ↦ none | some (a, t) ↦ f a t ] ≡ some (b, u)
        → P
    go none e h = cc
    go (some (a, t)) e h = k a t e h

pub >>=-some {ℓ κ} :
    {A : Type ℓ} {B : Type κ} (m : M A) (f : A → M B) (s : Bytes) {a : A} {t : Bytes}
    → m s ≡ some (a, t)
    → (m >>= f) s ≡ f a t
>>=-some m f s h = rw (h, ◌>>=◌)
