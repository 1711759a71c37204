-- ===== src/Rules/Lockstep.antt =====
-- Code on a context, run twice with `failFast` set in two ways: as long as there is no violation, both
-- runs do the same.
pub mod Cel
pub mod Field
pub mod Containers
pub mod Map
pub mod Kinds
use protovalidate_cc.Base.{
  ℕ, zero, suc, ◌≡◌, refl, sym, ap, ◌∙◌, Bool, true, false, not, ◌&&◌, ◌||◌, Option, none, some,
  List, [], ◌∷◌, ◌++◌, ltb, if◌then◌else◌, length, arith,
}
use protovalidate_cc.Proto.{Status, ok, error, is_ok}
use protovalidate_cc.Rules.Context.Monad.{
  M, pure, ◌>>=◌, ◌>>◌, size, returns, fails_fast, emplace_back, modify, tick, each, for_each,
  or_ok, return_or_go_on,
}
use protovalidate_cc.Rules.Context.{
  RuleContext, RuleViolation, should_return, update_from, append_field_path_element,
  append_rule_path_element, set_field_value, set_rule_value, set_for_key,
}

abbrev pub with_fail_fast : Bool → RuleContext → RuleContext
with_fail_fast c ctx = record ctx { fail_fast = c }

-- if the run ends without violations, it began without, and with `failFast` set to `c` it gives the
-- same and ends in the same context
abbrev pub IsLockstep {ℓ} : {A : Type ℓ} → M A → Type ℓ
IsLockstep m =
    (ctx : RuleContext) (c : Bool)
    → (m ctx).1.violations ≡ []
    → (ctx.violations ≡ []) × (m (with_fail_fast c ctx) ≡ ((m ctx).0, with_fail_fast c (m ctx).1))

-- the weaker part, on one run
abbrev pub IsReflecting {ℓ} : {A : Type ℓ} → M A → Type 0
IsReflecting m = (ctx : RuleContext) → (m ctx).1.violations ≡ [] → ctx.violations ≡ []

pub pure-IsLockstep {ℓ} : {A : Type ℓ} (a : A) → IsLockstep (pure a)
pure-IsLockstep a ctx c e = (e, refl)

pub bind-IsLockstep {ℓ κ} :
    {A : Type ℓ} {B : Type κ} (m : M A) (f : A → M B)
    → IsLockstep m
    → ((a : A) → IsLockstep (f a))
    → IsLockstep (m >>= f)
bind-IsLockstep m f hm hf ctx c e =
    let (e', same) = hf (m ctx).0 (m ctx).1 c e in
    let (e'', first) = hm ctx c e' in (e'', rw first same)

pub size-IsLockstep : IsLockstep size
size-IsLockstep ctx c e = (e, refl)

tick-IsLockstep : IsLockstep tick
tick-IsLockstep ctx c e = (e, refl)

not-append-one {ℓ} : {A : Type ℓ} (xs : List A) (x : A) → ¬ (xs ++ (x ∷ []) ≡ [])
not-append-one [] x e = ground arith
not-append-one (y ∷ xs) x e = ground arith

emplace_back-IsLockstep : (v : RuleViolation) → IsLockstep (emplace_back v)
emplace_back-IsLockstep v ctx c e = absurd (not-append-one ctx.violations v e)

should_return-lockstep :
    (ctx : RuleContext) (c : Bool) (status : Status)
    → ctx.violations ≡ []
    → should_return (with_fail_fast c ctx) status ≡ should_return ctx status
unfolding should_return
should_return-lockstep ctx c ok e = ground arith
should_return-lockstep ctx c (error code text) e = refl

returns-IsLockstep : (status : Status) → IsLockstep (returns status)
returns-IsLockstep status ctx c e =
    (e, ap (λ b. (b, with_fail_fast c ctx)) (should_return-lockstep ctx c status e))

pub if-IsLockstep {ℓ} :
    {A : Type ℓ} (b : Bool) (m n : M A)
    → IsLockstep m
    → IsLockstep n
    → IsLockstep (if b then m else n)
if-IsLockstep true m n hm hn = hm
if-IsLockstep false m n hm hn = hn

pub return_or_go_on-IsLockstep : (status : Status) → IsLockstep (return_or_go_on status)
unfolding return_or_go_on
return_or_go_on-IsLockstep status =
    bind-IsLockstep (returns status) (λ stop. pure (if stop then some status else none))
      (returns-IsLockstep status) (λ stop. pure-IsLockstep (if stop then some status else none))

-- going on with the next round, or returning
option-IsLockstep {ℓ κ} :
    {A : Type ℓ} {B : Type κ} (answer : Option A) (m : M B) (f : A → M B)
    → IsLockstep m
    → ((a : A) → IsLockstep (f a))
    → IsLockstep {A = B} (λ ctx. elim answer [ none ↦ m ctx | some a ↦ f a ctx ])
option-IsLockstep none m f hm hf = hm
option-IsLockstep (some a) m f hm hf = hf a

-- the same where the two are computations
pub either-IsLockstep {ℓ κ} :
    {A : Type ℓ} {B : Type κ} (answer : Option A) (m : M B) (f : A → M B)
    → IsLockstep m
    → ((a : A) → IsLockstep (f a))
    → IsLockstep {A = B} (elim answer [ none ↦ m | some a ↦ f a ])
either-IsLockstep none m f hm hf = hm
either-IsLockstep (some a) m f hm hf = hf a

pub each-IsLockstep {ℓ} :
    {A : Type ℓ} (body : A → M (Option Status)) (xs : List A)
    → ((x : A) → IsLockstep (body x))
    → IsLockstep (each body xs)
unfolding each
each-IsLockstep body [] h = pure-IsLockstep none
each-IsLockstep body (x ∷ xs) h =
    bind-IsLockstep (body x)
      (λ answer ctx. elim answer [ none ↦ each body xs ctx | some status ↦ (some status, ctx) ])
      (h x)
      (λ answer.
        option-IsLockstep answer (each body xs) (λ status. pure (some status))
          (each-IsLockstep body xs h) (λ status. pure-IsLockstep (some status)))

pub for_each-IsLockstep {ℓ} :
    {A : Type ℓ} (body : A → M (Option Status)) (xs : List A)
    → ((x : A) → IsLockstep (body x))
    → IsLockstep (for_each body xs)
unfolding for_each
for_each-IsLockstep body xs h =
    bind-IsLockstep (each body xs) (λ answer. pure (or_ok answer)) (each-IsLockstep body xs h)
      (λ answer. pure-IsLockstep (or_ok answer))

update_from-reflects-empty :
    (start : ℕ) (f : RuleViolation → RuleViolation) (vs : List RuleViolation)
    → update_from start f vs ≡ []
    → vs ≡ []
unfolding update_from
update_from-reflects-empty start f [] e = refl
update_from-reflects-empty zero f (v ∷ vs) e = ground arith
update_from-reflects-empty (suc start) f (v ∷ vs) e = ground arith

ltb-zero : (n : ℕ) → ltb n 0 ≡ false
ltb-zero n = ground arith

ltb-length-none : (pos : ℕ) (vs : List RuleViolation) → vs ≡ [] → ltb pos (length vs) ≡ false
ltb-length-none pos vs e = rw e (ltb-zero pos)

if-IsReflecting {ℓ} :
    {A : Type ℓ} (b : Bool) (m n : M A)
    → IsReflecting m
    → IsReflecting n
    → IsReflecting (if b then m else n)
if-IsReflecting true m n hm hn = hm
if-IsReflecting false m n hm hn = hn

-- `if (ctx.violations.size() > pos) { … }`: the part under the test keeps violations
pub grown-IsLockstep {ℓ} :
    {A : Type ℓ} (pos : ℕ) (m n : M A)
    → IsReflecting m
    → IsLockstep n
    → IsLockstep (size >>= λ grown. if ltb pos grown then m else n)
grown-IsLockstep pos m n hm hn ctx c e =
    let empty =
      if-IsReflecting (ltb pos (length ctx.violations)) m n hm (λ ctx' e'. (hn ctx' true e').0) ctx
        e in
    let test = ltb-length-none pos ctx.violations empty in
    (empty, rw test (hn ctx c (rw test at e)).1)
