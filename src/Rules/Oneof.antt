-- ===== src/Rules/Oneof.antt =====
-- MessageValidationRules, OneofValidationRules and MessageOneofValidationRules of
-- buf/validate/internal/rules.h and rules.cc.
pub mod Counts
use protovalidate_cc.Base.{
  ℕ, zero, suc, Bool, true, false, not, ◌&&◌, ◌||◌, Option, none, some, List, [], ◌∷◌, ◌++◌, ◌==◌,
  ltb, if◌then◌else◌, map, Bytes, codes,
}
use protovalidate_cc.Proto.{
  Libraries, Message, OneofDescriptor, FieldDescriptor, FieldDescriptors, Status, ok, CelValue,
  Activation,
}
use protovalidate_cc.Rules.Cel.{CelValidationRules, validate_cel}
use protovalidate_cc.Rules.Context.Monad.{M, pure, ◌>>=◌, ◌>>◌, emplace_back}
use protovalidate_cc.Rules.Context.{RuleViolation}
use protovalidate_cc.Rules.Field.{this_is}
use protovalidate_cc.Rules.Path.{oneof_path_element}

pub record OneofValidationRules : Type 0 where
  pub oneof : OneofDescriptor
  pub required : Bool

pub record MessageOneofValidationRules : Type 0 where
  pub fields : FieldDescriptors
  pub required : Bool

-- a violation of a whole message
abbrev pub message_oneof_violation : Bytes → RuleViolation
message_oneof_violation text = record {
  proto = record {
    rule_id = codes "message.oneof";
    message = text;
    path = none;
    rule_path = none;
    for_key = false;
  };
  field_value = none;
  rule_value = none;
}

module _ (lib : Libraries) where
  -- `MessageValidationRules::Validate`
  unfoldable pub validate_message_rules : CelValidationRules → Message → M Status
  unfolding validate_cel
  validate_message_rules rules message = do
    (status, _) ← validate_cel lib rules (this_is lib (lib.message_value message))
    pure status

  unfoldable pub oneof_violation : OneofDescriptor → RuleViolation
  unfolding oneof_path_element
  oneof_violation oneof = record {
    proto = record {
      rule_id = codes "required";
      message = codes "exactly one field is required in oneof";
      path = some (oneof_path_element lib oneof ∷ []);
      rule_path = none;
      for_key = false;
    };
    field_value = none;
    rule_value = none;
  }

  -- `OneofValidationRules::Validate`
  unfoldable pub validate_oneof : OneofValidationRules → Message → M Status
  unfolding oneof_violation
  validate_oneof r message =
      if r.required && not (lib.has_oneof message r.oneof)
      then emplace_back (oneof_violation r.oneof) >> pure ok
      else pure ok

  -- `has_count`
  unfoldable pub count_set : FieldDescriptors → Message → ℕ
  count_set [] message = 0
  count_set (f ∷ fields) message =
      if lib.has_field message f then suc (count_set fields message) else count_set fields message

  unfoldable pub field_names : FieldDescriptors → Bytes
  field_names fields = lib.join_commas (map lib.field_name fields)

  -- a violation under a test
  unfoldable pub violation_if : Bool → Bytes → M (Unit {0})
  violation_if true text = emplace_back (message_oneof_violation text)
  violation_if false text = pure tt

  -- `MessageOneofValidationRules::Validate`
  unfoldable pub validate_message_oneof : MessageOneofValidationRules → Message → M Status
  unfolding count_set field_names violation_if
  validate_message_oneof r message = do
    let count = count_set r.fields message
    violation_if (ltb 1 count)
        (codes "only one of " ++ (field_names r.fields ++ codes " can be set"))
    violation_if (r.required && count == 0)
        (codes "one of " ++ (field_names r.fields ++ codes " must be set"))
    pure ok
