-- ===== src/Rules/Context/Monad.antt =====
-- Code that works on a context: the context is passed on, also where a status is an error. A loop
-- with early returns is `for_each`.
use protovalidate_cc.Base.{
  ℕ, zero, suc, Bool, Option, none, some, List, [], ◌∷◌, ◌++◌, if◌then◌else◌, length,
}
use protovalidate_cc.Proto.{Status, ok}
use protovalidate_cc.Rules.Context.{RuleContext, RuleViolation, should_return}

abbrev pub M {ℓ} : Type ℓ → Type ℓ
M A = RuleContext → A × RuleContext

abbrev pub pure {ℓ} : {A : Type ℓ} → A → M A
pure a ctx = (a, ctx)

infixl 5 ◌>>=◌ ◌>>◌
abbrev pub ◌>>=◌ {ℓ κ} : {A : Type ℓ} {B : Type κ} → M A → (A → M B) → M B
◌>>=◌ m f ctx = let (a, ctx') = m ctx in f a ctx'

abbrev pub ◌>>◌ {ℓ κ} : {A : Type ℓ} {B : Type κ} → M A → M B → M B
m >> k = m >>= λ _. k

-- `ctx.violations.size()`
abbrev pub size : M ℕ
size ctx = (length ctx.violations, ctx)

-- `ctx.shouldReturn(status)`
abbrev pub returns : Status → M Bool
returns status ctx = (should_return ctx status, ctx)

abbrev pub fails_fast : M Bool
fails_fast ctx = (ctx.fail_fast, ctx)

-- `ctx.violations.emplace_back(…)`
abbrev pub emplace_back : RuleViolation → M (Unit {0})
emplace_back v ctx = (tt, record ctx { violations = ctx.violations ++ (v ∷ []) })

abbrev pub modify : (RuleContext → RuleContext) → M (Unit {0})
modify f ctx = (tt, f ctx)

-- `absl::Now()`: how many readings came before
abbrev pub tick : M ℕ
tick ctx = (ctx.clock, record ctx { clock = suc ctx.clock })

-- `for (x : xs) { … }`, whose body answers `some` to return; `none` is the loop's end
unfoldable pub each {ℓ} : {A : Type ℓ} → (A → M (Option Status)) → List A → M (Option Status)
each body [] ctx = (none, ctx)
each body (x ∷ xs) ctx =
    let (answer, ctx') = body x ctx in
    elim answer [ none ↦ each body xs ctx' | some status ↦ (some status, ctx') ]

-- `return absl::OkStatus();` behind a loop
abbrev pub or_ok : Option Status → Status
or_ok none = ok
or_ok (some status) = status

unfoldable pub for_each {ℓ} : {A : Type ℓ} → (A → M (Option Status)) → List A → M Status
unfolding each
for_each body xs = each body xs >>= λ answer. pure (or_ok answer)

-- `if (ctx.shouldReturn(status)) { return status; }` at the end of a body
unfoldable pub return_or_go_on : Status → M (Option Status)
return_or_go_on status = returns status >>= λ stop. pure (if stop then some status else none)

-- 0, 1, … below the bound
unfoldable pub counting : ℕ → ℕ → List ℕ
counting zero i = []
counting (suc rounds) i = i ∷ counting rounds (suc i)

abbrev pub indices : ℕ → List ℕ
indices n = counting n 0
