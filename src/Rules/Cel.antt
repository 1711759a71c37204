-- ===== src/Rules/Cel.antt =====
-- CompiledRule and CelValidationRules of buf/validate/internal/cel_validation_rules.h and .cc.
use protovalidate_cc.Base.{
  ℕ, true, false, Option, none, some, List, [], ◌∷◌, ◌++◌, ltb, if◌then◌else◌, Bytes, codes,
}
use protovalidate_cc.Proto.{
  Libraries, Message, FieldDescriptor, CelExpression, Status, ok, error, value, failure,
  invalid_argument, CelValue, cel_null, cel_bool, cel_string, cel_error, cel_message, Activation,
}
use protovalidate_cc.Rules.Context.Monad.{M, pure, ◌>>=◌, ◌>>◌, size, emplace_back, modify, tick}
use protovalidate_cc.Rules.Context.{
  RuleViolation, ProtoField, should_return, set_rule_value, is_empty,
}
use protovalidate_cc.Rules.Path.Print.{FieldPathElement}

-- the message Rule of validate.proto
pub record Rule : Type 0 where
  pub id : Bytes
  pub message : Bytes
  pub expression : Bytes

pub record CompiledRule : Type 0 where
  pub rule : Rule
  pub expr : CelExpression
  pub rule_path : Option (List FieldPathElement)
  pub rule_field : Option FieldDescriptor

pub record CelValidationRules : Type 0 where
  pub rules : CelValue
  pub exprs : List CompiledRule

-- a violation with the rule's id and path and no values
abbrev pub rule_violation : CompiledRule → Bytes → RuleViolation
rule_violation compiled message = record {
  proto = record {
    rule_id = compiled.rule.id;
    message = message;
    path = none;
    rule_path = compiled.rule_path;
    for_key = false;
  };
  field_value = none;
  rule_value = none;
}

-- the rule's message, or the expression with ` returned false`
unfoldable pub false_message : Rule → Bytes
false_message rule =
    if is_empty rule.message
    then b'"' ∷ (rule.expression ++ codes "\" returned false")
    else rule.message

-- what `ProcessRule` does with the result
unfoldable pub process_result : CompiledRule → CelValue → M Status
unfolding false_message
process_result compiled (cel_bool true) = pure ok
process_result compiled (cel_bool false) =
    emplace_back (rule_violation compiled (false_message compiled.rule)) >> pure ok
process_result compiled (cel_string []) = pure ok
process_result compiled (cel_string (c ∷ s)) =
    emplace_back (rule_violation compiled (c ∷ s)) >> pure ok
process_result compiled (cel_error message) = pure (error invalid_argument message)
process_result compiled _ = pure (error invalid_argument (codes "invalid result type"))

-- `rules_.IsMessage() && expr.ruleField != nullptr`: the message and the field
unfoldable pub bound_rule : CelValue → CompiledRule → Option ProtoField
bound_rule (cel_message rules) compiled = elim compiled.rule_field [
  | none ↦ none
  | some field ↦ some (record { message = rules; descriptor = field; index = none })
]
bound_rule _ compiled = none

module _ (lib : Libraries) where
  unfoldable pub process_rule : Activation → CompiledRule → M Status
  unfolding process_result
  process_rule activation compiled = elim (lib.evaluate compiled.expr activation) [
    | failure code message ↦ pure (error code message)
    | value result ↦ process_result compiled result
  ]

  unfoldable pub proto_field_to_cel_value : Message → FieldDescriptor → CelValue
  proto_field_to_cel_value message field =
      if lib.is_map field
      then lib.map_value message field
      else if lib.is_repeated field
      then lib.list_value message field
      else elim (lib.single_value message field) [ value v ↦ v | failure c m ↦ cel_null ]

  -- `activation.InsertValue("rule", …)` under its test
  unfoldable pub bind_rule : Option ProtoField → Activation → Activation
  unfolding proto_field_to_cel_value
  bind_rule none activation = activation
  bind_rule (some f) activation = record activation {
    rule = lib.insert_value activation.rule (proto_field_to_cel_value f.message f.descriptor);
  }

  -- `if (… && ctx.violations.size() > pos) ctx.setRuleValue(…)`
  unfoldable pub bound_rule_value : Option ProtoField → ℕ → ℕ → M (Unit {0})
  unfolding set_rule_value
  bound_rule_value none pos now = pure tt
  bound_rule_value (some f) pos now = if ltb pos now then modify (set_rule_value f pos) else pure tt

  -- the part of a round in front of its test
  unfoldable pub run_rule : CelValue → Activation → CompiledRule → M Status
  unfolding process_rule bind_rule bound_rule bound_rule_value
  run_rule rules activation compiled = do
    let bound = bound_rule rules compiled
    pos ← size
    status ← process_rule (bind_rule bound activation) compiled
    grown ← size
    bound_rule_value bound pos grown
    pure status

  -- the loop over the expressions; `break` leaves "rule" bound
  unfoldable pub cel_loop :
      CelValue → Activation → List CompiledRule → Status → M (Status × Activation)
  unfolding run_rule bind_rule should_return
  cel_loop rules activation [] status ctx = ((status, activation), ctx)
  cel_loop rules activation (compiled ∷ exprs) _ ctx =
      let (status, ctx') = run_rule rules activation compiled ctx in
      let bound = bind_rule (bound_rule rules compiled) activation in
      elim (should_return ctx' status) [
        | true ↦ ((status, bound), ctx')
        | false ↦ cel_loop rules (record bound { rule = none }) exprs status ctx'
      ]

  -- `ValidateCel`: the status, and the activation as it is left
  unfoldable pub validate_cel : CelValidationRules → Activation → M (Status × Activation)
  unfolding cel_loop
  validate_cel rules activation = do
    reading ← tick
    (status, left) ←
        cel_loop rules.rules
          (record activation {
            rules = lib.insert_value activation.rules rules.rules;
            now = lib.insert_value activation.now (lib.now reading);
          })
          rules.exprs ok
    pure (status, record left { rules = none })
