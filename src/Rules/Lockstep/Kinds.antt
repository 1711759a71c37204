-- ===== src/Rules/Lockstep/Kinds.antt =====
-- Every kind of rules with `failFast` set in two ways.
use protovalidate_cc.Base.{ℕ, ◌≡◌, Bool, true, false, not, ◌&&◌, [], ◌++◌, ◌==◌, ltb, Bytes, codes}
use protovalidate_cc.Proto.{Libraries, Message, ok}
use protovalidate_cc.Rules.Cel.{CelValidationRules, validate_cel}
use protovalidate_cc.Rules.Context.Monad.{pure, ◌>>◌, emplace_back}
use protovalidate_cc.Rules.Context.{RuleContext}
use protovalidate_cc.Rules.Field.{FieldValidationRules, this_is}
use protovalidate_cc.Rules.Kinds.{
  Subclass, plain, enum_rules, repeated_rules, map_rules, ValidationRules, message_rules,
  field_validation_rules, oneof_rules, message_oneof_rules, validate_subclass, validate,
}
use protovalidate_cc.Rules.Lockstep.Cel.{emplace_back-ok-IsLockstep, validate_cel-IsLockstep}
use protovalidate_cc.Rules.Lockstep.Containers.{validate_repeated-IsLockstep}
use protovalidate_cc.Rules.Lockstep.Field.{validate_field-IsLockstep, validate_enum-IsLockstep}
use protovalidate_cc.Rules.Lockstep.Map.{validate_map-IsLockstep}
use protovalidate_cc.Rules.Lockstep.{
  IsLockstep, with_fail_fast, pure-IsLockstep, bind-IsLockstep, if-IsLockstep,
  emplace_back-IsLockstep,
}
use protovalidate_cc.Rules.Oneof.{
  OneofValidationRules, MessageOneofValidationRules, message_oneof_violation,
  validate_message_rules, oneof_violation, validate_oneof, count_set, field_names, violation_if,
  validate_message_oneof,
}

violation_if-IsLockstep :
    (lib : Libraries) (test : Bool) (text : Bytes) → IsLockstep (violation_if lib test text)
unfolding violation_if
violation_if-IsLockstep lib true text = emplace_back-IsLockstep (message_oneof_violation text)
violation_if-IsLockstep lib false text = pure-IsLockstep tt

module _ (lib : Libraries) where
  validate_message_rules-IsLockstep :
      (rules : CelValidationRules) (message : Message)
      → IsLockstep (validate_message_rules lib rules message)
  unfolding validate_message_rules
  validate_message_rules-IsLockstep rules message =
      bind-IsLockstep (validate_cel lib rules (this_is lib (lib.message_value message)))
        (λ answer. pure answer.0)
        (validate_cel-IsLockstep lib rules (this_is lib (lib.message_value message)))
        (λ answer. pure-IsLockstep answer.0)

  validate_oneof-IsLockstep :
      (r : OneofValidationRules) (message : Message) → IsLockstep (validate_oneof lib r message)
  unfolding validate_oneof
  validate_oneof-IsLockstep r message =
      if-IsLockstep (r.required && not (lib.has_oneof message r.oneof))
        (emplace_back (oneof_violation lib r.oneof) >> pure ok) (pure ok)
        (emplace_back-ok-IsLockstep (oneof_violation lib r.oneof)) (pure-IsLockstep ok)

  validate_message_oneof-IsLockstep :
      (r : MessageOneofValidationRules) (message : Message)
      → IsLockstep (validate_message_oneof lib r message)
  unfolding validate_message_oneof
  validate_message_oneof-IsLockstep r message =
      bind-IsLockstep (violation_if lib (ltb 1 count) only)
        (λ _. violation_if lib (r.required && count == 0) one >> pure ok)
        (violation_if-IsLockstep lib (ltb 1 count) only)
        λ _.
          bind-IsLockstep (violation_if lib (r.required && count == 0) one) (λ _. pure ok)
            (violation_if-IsLockstep lib (r.required && count == 0) one) (λ _. pure-IsLockstep ok)
    where
      count : ℕ
      count = count_set lib r.fields message

      only : Bytes
      only = codes "only one of " ++ (field_names lib r.fields ++ codes " can be set")

      one : Bytes
      one = codes "one of " ++ (field_names lib r.fields ++ codes " must be set")

  validate_subclass-IsLockstep :
      (r : FieldValidationRules) (subclass : Subclass) (message : Message)
      → IsLockstep (validate_subclass lib r subclass message)
  unfolding validate_subclass
  validate_subclass-IsLockstep r plain message = validate_field-IsLockstep lib r message
  validate_subclass-IsLockstep r (enum_rules d) message = validate_enum-IsLockstep lib r d message
  validate_subclass-IsLockstep r (repeated_rules items) message =
      validate_repeated-IsLockstep lib r items message
  validate_subclass-IsLockstep r (map_rules keys values) message =
      validate_map-IsLockstep lib r keys values message

  pub validate-IsLockstep :
      (rules : ValidationRules) (message : Message) → IsLockstep (validate lib rules message)
  unfolding validate
  validate-IsLockstep (message_rules r) message = validate_message_rules-IsLockstep r message
  validate-IsLockstep (field_validation_rules r subclass) message =
      validate_subclass-IsLockstep r subclass message
  validate-IsLockstep (oneof_rules r) message = validate_oneof-IsLockstep r message
  validate-IsLockstep (message_oneof_rules r) message = validate_message_oneof-IsLockstep r message

  -- Where rules of any kind end with a context without violations, the context had none before,
  -- and with `failFast` set in either way they give the same status and leave the same context
  -- but for `failFast`.
  pub validate-with_fail_fast :
      (rules : ValidationRules) (message : Message) (ctx : RuleContext) (c : Bool)
      → (validate lib rules message ctx).1.violations ≡ []
      → (ctx.violations ≡ [])
        × (validate lib rules message (with_fail_fast c ctx) ≡ (
          (validate lib rules message ctx).0,
          with_fail_fast c (validate lib rules message ctx).1,
        ))
  validate-with_fail_fast = validate-IsLockstep
