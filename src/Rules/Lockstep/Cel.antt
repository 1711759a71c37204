-- ===== src/Rules/Lockstep/Cel.antt =====
-- ValidateCel and ValidateAny with `failFast` set in two ways.
use protovalidate_cc.Base.{
  ℕ, Bool, true, false, not, ◌&&◌, Option, none, some, List, [], ◌∷◌, if◌then◌else◌, Bytes, codes,
}
use protovalidate_cc.Proto.{
  Libraries, Message, FieldDescriptor, any_in, any_not_in, Status, ok, error, StatusOr, value,
  failure, invalid_argument, CelValue, cel_null, cel_bool, cel_int, cel_uint, cel_double,
  cel_string, cel_bytes, cel_message, cel_error, cel_other, Activation,
}
use protovalidate_cc.Rules.Cel.{
  CompiledRule, CelValidationRules, rule_violation, false_message, process_result, bound_rule,
  process_rule, bind_rule, bound_rule_value, run_rule, cel_loop, validate_cel,
}
use protovalidate_cc.Rules.Context.Monad.{
  M, pure, ◌>>=◌, ◌>>◌, size, returns, emplace_back, modify, tick,
}
use protovalidate_cc.Rules.Context.{
  RuleViolation, ProtoField, is_empty, set_rule_value, with_rule_value,
}
use protovalidate_cc.Rules.Field.Any.{
  AnyRules, any_violation, found_in, check_allowed, check_blocked, type_url_field, validate_any,
}
use protovalidate_cc.Rules.Lockstep.{
  IsLockstep, pure-IsLockstep, bind-IsLockstep, size-IsLockstep, tick-IsLockstep,
  emplace_back-IsLockstep, returns-IsLockstep, grown-IsLockstep, update_from-reflects-empty,
  if-IsLockstep, either-IsLockstep,
}

pub emplace_back-ok-IsLockstep : (v : RuleViolation) → IsLockstep (emplace_back v >> pure ok)
emplace_back-ok-IsLockstep v =
    bind-IsLockstep (emplace_back v) (λ _. pure ok) (emplace_back-IsLockstep v)
      (λ _. pure-IsLockstep ok)

abbrev invalid : Status
invalid = error invalid_argument (codes "invalid result type")

process_result-IsLockstep :
    (compiled : CompiledRule) (v : CelValue) → IsLockstep (process_result compiled v)
unfolding process_result
process_result-IsLockstep compiled (cel_bool true) = pure-IsLockstep ok
process_result-IsLockstep compiled (cel_bool false) =
    emplace_back-ok-IsLockstep (rule_violation compiled (false_message compiled.rule))
process_result-IsLockstep compiled (cel_string []) = pure-IsLockstep ok
process_result-IsLockstep compiled (cel_string (c ∷ s)) =
    emplace_back-ok-IsLockstep (rule_violation compiled (c ∷ s))
process_result-IsLockstep compiled (cel_error message) =
    pure-IsLockstep (error invalid_argument message)
process_result-IsLockstep compiled cel_null = pure-IsLockstep invalid
process_result-IsLockstep compiled (cel_int n) = pure-IsLockstep invalid
process_result-IsLockstep compiled (cel_uint n) = pure-IsLockstep invalid
process_result-IsLockstep compiled (cel_double n) = pure-IsLockstep invalid
process_result-IsLockstep compiled (cel_bytes s) = pure-IsLockstep invalid
process_result-IsLockstep compiled (cel_message m) = pure-IsLockstep invalid
process_result-IsLockstep compiled (cel_other n) = pure-IsLockstep invalid

module _ (lib : Libraries) where
  process_rule-IsLockstep :
      (activation : Activation) (compiled : CompiledRule)
      → IsLockstep (process_rule lib activation compiled)
  unfolding process_rule
  process_rule-IsLockstep activation compiled = go (lib.evaluate compiled.expr activation)
    where
      go :
          (r : StatusOr CelValue)
          → IsLockstep {A = Status} (elim r [
            | failure code message ↦ pure (error code message)
            | value result ↦ process_result compiled result
          ])
      go (value result) = process_result-IsLockstep compiled result
      go (failure code message) = pure-IsLockstep (error code message)

  -- the branch where the context grew
  bound_rule_value-IsLockstep :
      (bound : Option ProtoField) (pos : ℕ)
      → IsLockstep (size >>= λ grown. bound_rule_value lib bound pos grown)
  unfolding bound_rule_value set_rule_value
  bound_rule_value-IsLockstep none pos =
      bind-IsLockstep size (λ _. pure tt) size-IsLockstep (λ _. pure-IsLockstep tt)
  bound_rule_value-IsLockstep (some f) pos =
      grown-IsLockstep pos (modify (set_rule_value f pos)) (pure tt)
        (λ ctx e. update_from-reflects-empty pos (with_rule_value f) ctx.violations e)
        (pure-IsLockstep tt)

  run_rule-IsLockstep :
      (rules : CelValue) (activation : Activation) (compiled : CompiledRule)
      → IsLockstep (run_rule lib rules activation compiled)
  unfolding run_rule
  run_rule-IsLockstep rules activation compiled =
      let bound = bound_rule rules compiled in
      let process = process_rule lib (bind_rule lib bound activation) compiled in
      let tag = λ (pos : ℕ). size >>= λ grown. bound_rule_value lib bound pos grown in
      bind-IsLockstep size (λ pos. process >>= λ status. tag pos >> pure status) size-IsLockstep
        λ pos.
          bind-IsLockstep process (λ status. tag pos >> pure status)
            (process_rule-IsLockstep (bind_rule lib bound activation) compiled)
            λ status.
              bind-IsLockstep (tag pos) (λ _. pure status) (bound_rule_value-IsLockstep bound pos)
                λ _. pure-IsLockstep status

  -- the end of a round of the loop
  abbrev end_round :
      CelValue → List CompiledRule → Activation → Status → Bool → M (Status × Activation)
  end_round rules exprs bound status stop ctx = elim stop [
    | true ↦ ((status, bound), ctx)
    | false ↦ cel_loop lib rules (record bound { rule = none }) exprs status ctx
  ]

  end_round-IsLockstep :
      (rules : CelValue) (exprs : List CompiledRule) (bound : Activation) (status : Status)
      → IsLockstep (cel_loop lib rules (record bound { rule = none }) exprs status)
      → (stop : Bool) → IsLockstep (end_round rules exprs bound status stop)
  end_round-IsLockstep rules exprs bound status h true = pure-IsLockstep (status, bound)
  end_round-IsLockstep rules exprs bound status h false = h

  cel_loop-IsLockstep :
      (rules : CelValue) (activation : Activation) (exprs : List CompiledRule) (status : Status)
      → IsLockstep (cel_loop lib rules activation exprs status)
  unfolding cel_loop
  cel_loop-IsLockstep rules activation [] status = pure-IsLockstep (status, activation)
  cel_loop-IsLockstep rules activation (compiled ∷ exprs) _ =
      let bound = bind_rule lib (bound_rule rules compiled) activation in
      bind-IsLockstep (run_rule lib rules activation compiled)
        (λ status. returns status >>= end_round rules exprs bound status)
        (run_rule-IsLockstep rules activation compiled)
        (λ status.
          bind-IsLockstep (returns status) (end_round rules exprs bound status)
            (returns-IsLockstep status)
            (end_round-IsLockstep rules exprs bound status
              (cel_loop-IsLockstep rules (record bound { rule = none }) exprs status)))

  -- the parts of `ValidateCel`
  abbrev start : CelValidationRules → Activation → ℕ → M (Status × Activation)
  start r activation reading =
      cel_loop lib r.rules
        (record activation {
          rules = lib.insert_value activation.rules r.rules;
          now = lib.insert_value activation.now (lib.now reading);
        })
        r.exprs ok

  abbrev last : Status × Activation → M (Status × Activation)
  last answer = pure (answer.0, record answer.1 { rules = none })

  pub validate_cel-IsLockstep :
      (r : CelValidationRules) (activation : Activation)
      → IsLockstep (validate_cel lib r activation)
  unfolding validate_cel
  validate_cel-IsLockstep r activation =
      bind-IsLockstep tick (λ reading. start r activation reading >>= last) tick-IsLockstep
        λ reading.
          bind-IsLockstep (start r activation reading) last
            (cel_loop-IsLockstep r.rules
              (record activation {
                rules = lib.insert_value activation.rules r.rules;
                now = lib.insert_value activation.now (lib.now reading);
              })
              r.exprs ok)
            (λ answer. pure-IsLockstep (answer.0, record answer.1 { rules = none }))

  -- a violation under a test
  emplace_if-IsLockstep :
      (test : Bool) (v : RuleViolation) → IsLockstep (if test then emplace_back v else pure tt)
  emplace_if-IsLockstep test v =
      if-IsLockstep test (emplace_back v) (pure tt) (emplace_back-IsLockstep v) (pure-IsLockstep tt)

  check_allowed-IsLockstep :
      (any : AnyRules) (field_rules : Message) (field : ProtoField) (uri : Bytes)
      → IsLockstep (check_allowed lib any field_rules field uri)
  unfolding check_allowed
  check_allowed-IsLockstep any field_rules field uri =
      emplace_if-IsLockstep (not (is_empty any.allowed) && not (found_in uri any.allowed)) (
        any_violation lib field_rules field (codes "any.in")
          (codes "type URL must be in the allow list") any_in)

  check_blocked-IsLockstep :
      (any : AnyRules) (field_rules : Message) (field : ProtoField) (uri : Bytes)
      → IsLockstep (check_blocked lib any field_rules field uri)
  unfolding check_blocked
  check_blocked-IsLockstep any field_rules field uri =
      emplace_if-IsLockstep (found_in uri any.blocked) (
        any_violation lib field_rules field (codes "any.not_in")
          (codes "type URL must not be in the block list") any_not_in)

  pub validate_any-IsLockstep :
      (any : AnyRules) (field_rules : Message) (field : ProtoField) (any_message : Message)
      → IsLockstep (validate_any lib any field_rules field any_message)
  unfolding validate_any
  validate_any-IsLockstep any field_rules field any_message =
      either-IsLockstep (type_url_field lib any_message)
        (pure (error invalid_argument (codes "expected Any")))
        (λ f. allowed f >> (blocked f >> pure ok))
        (pure-IsLockstep (error invalid_argument (codes "expected Any")))
        λ f.
          bind-IsLockstep (allowed f) (λ _. blocked f >> pure ok)
            (check_allowed-IsLockstep any field_rules field (lib.get_string any_message f))
            λ _.
              bind-IsLockstep (blocked f) (λ _. pure ok)
                (check_blocked-IsLockstep any field_rules field (lib.get_string any_message f))
                λ _. pure-IsLockstep ok
    where
      allowed : FieldDescriptor → M (Unit {0})
      allowed f = check_allowed lib any field_rules field (lib.get_string any_message f)

      blocked : FieldDescriptor → M (Unit {0})
      blocked f = check_blocked lib any field_rules field (lib.get_string any_message f)
