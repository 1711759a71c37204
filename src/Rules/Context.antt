-- ===== src/Rules/Context.antt =====
-- RuleViolation and RuleContext of buf/validate/internal/validation_rules.h, ProtoField's data, and
-- the methods that change a context.
pub mod Monad
pub mod Paths
use protovalidate_cc.Base.{
  ℕ, zero, suc, Bool, true, false, ◌&&◌, ◌||◌, not, Option, none, some, List, [], ◌∷◌, ◌++◌, map,
  Bytes,
}
use mathlib.Core.List.{reverse}
use protovalidate_cc.Proto.{Message, FieldDescriptor, Status, is_ok}
use protovalidate_cc.Rules.Path.Print.{FieldPathElement}

-- `index_`; `none` is the sentinel -1
pub record ProtoField : Type 0 where
  pub message : Message
  pub descriptor : FieldDescriptor
  pub index : Option ℕ

-- the message Violation of validate.proto; `none` is a path that is not set
pub record Violation : Type 0 where
  pub rule_id : Bytes
  pub message : Bytes
  pub path : Option (List FieldPathElement)
  pub rule_path : Option (List FieldPathElement)
  pub for_key : Bool

pub record RuleViolation : Type 0 where
  pub proto : Violation
  pub field_value : Option ProtoField
  pub rule_value : Option ProtoField

-- `clock` counts the readings of `absl::Now()`.
pub record RuleContext : Type 0 where
  pub fail_fast : Bool
  pub violations : List RuleViolation
  pub clock : ℕ

abbrev pub is_empty {ℓ} : {A : Type ℓ} → List A → Bool
is_empty [] = true
is_empty (x ∷ xs) = false

unfoldable pub should_return : RuleContext → Status → Bool
should_return ctx status = not (is_ok status) || (ctx.fail_fast && not (is_empty ctx.violations))

-- `for (int i = start; i < violations.size(); i++)`
unfoldable pub update_from :
    ℕ → (RuleViolation → RuleViolation) → List RuleViolation → List RuleViolation
update_from start f [] = []
update_from zero f (v ∷ vs) = f v ∷ update_from zero f vs
update_from (suc start) f (v ∷ vs) = v ∷ update_from start f vs

-- `mutable_elements()` of a path, which is set from then on
abbrev pub elements : Option (List FieldPathElement) → List FieldPathElement
elements none = []
elements (some es) = es

abbrev pub add_elements :
    List FieldPathElement → Option (List FieldPathElement) → Option (List FieldPathElement)
add_elements suffix path = some (elements path ++ suffix)

abbrev pub with_field_element : FieldPathElement → RuleViolation → RuleViolation
with_field_element e v = record v {
  proto = record v.proto { path = add_elements (e ∷ []) v.proto.path };
}

abbrev pub with_rule_elements : List FieldPathElement → RuleViolation → RuleViolation
with_rule_elements suffix v = record v {
  proto = record v.proto { rule_path = add_elements suffix v.proto.rule_path };
}

abbrev pub with_field_value : ProtoField → RuleViolation → RuleViolation
with_field_value field v = record v { field_value = some field }

abbrev pub with_rule_value : ProtoField → RuleViolation → RuleViolation
with_rule_value rule v = record v { rule_value = some rule }

abbrev pub with_for_key : RuleViolation → RuleViolation
with_for_key v = record v { proto = record v.proto { for_key = true } }

unfoldable pub append_field_path_element : FieldPathElement → ℕ → RuleContext → RuleContext
unfolding update_from
append_field_path_element e start ctx = record ctx {
  violations = update_from start (with_field_element e) ctx.violations;
}

unfoldable pub append_rule_path_element : List FieldPathElement → ℕ → RuleContext → RuleContext
unfolding update_from
append_rule_path_element suffix start ctx = record ctx {
  violations = update_from start (with_rule_elements suffix) ctx.violations;
}

unfoldable pub set_field_value : ProtoField → ℕ → RuleContext → RuleContext
unfolding update_from
set_field_value field start ctx = record ctx {
  violations = update_from start (with_field_value field) ctx.violations;
}

unfoldable pub set_rule_value : ProtoField → ℕ → RuleContext → RuleContext
unfolding update_from
set_rule_value rule start ctx = record ctx {
  violations = update_from start (with_rule_value rule) ctx.violations;
}

unfoldable pub set_for_key : ℕ → RuleContext → RuleContext
unfolding update_from
set_for_key start ctx = record ctx { violations = update_from start with_for_key ctx.violations }

abbrev pub reverse_path : Option (List FieldPathElement) → Option (List FieldPathElement)
reverse_path none = none
reverse_path (some es) = some (reverse es)

abbrev pub finalize_violation : RuleViolation → RuleViolation
finalize_violation v = record v {
  proto = record v.proto {
    path = reverse_path v.proto.path;
    rule_path = reverse_path v.proto.rule_path;
  };
}

unfoldable pub finalize : RuleContext → RuleContext
finalize ctx = record ctx { violations = map finalize_violation ctx.violations }
