-- ===== src/Validator/Outcome.antt =====
-- What a whole validation answers: `Validator::Validate` of buf/validate/validator.cc.
use protovalidate_cc.Base.{ℕ, ◌<◌, ◌≡◌, refl, ap, ◌∙◌, Bool, Option, List, [], ◌∷◌, map, arith}
use protovalidate_cc.Proto.{Libraries, Message, Descriptor, Status, ok, error, StatusOr, value}
use protovalidate_cc.Rules.Context.{RuleContext, RuleViolation, finalize, finalize_violation}
use protovalidate_cc.Rules.Kinds.{RulesOr}
use protovalidate_cc.Rules.Options.{Schema}
use protovalidate_cc.Validator.{validate_message}
use protovalidate_cc.Validator.Fuel.{IsRank, validate_message-Agrees}
use protovalidate_cc.Validator.Lockstep.{validate_message-IsLockstep}
use protovalidate_cc.Validator.Result.{
  ValidationResult, Validator, new_context, to_result, validate,
}

abbrev pub no_violations : StatusOr ValidationResult
no_violations = value (record { violations = [] })

-- a result without violations comes from a run without violations
to_result-no_violations :
    (r : Status × RuleContext) → to_result r ≡ no_violations → (r.0 ≡ ok) × (r.1.violations ≡ [])
unfolding to_result finalize
to_result-no_violations (error code text, ctx) e = ground arith
to_result-no_violations (ok, ctx) e = (refl, go ctx.violations e)
  where
    result : List RuleViolation → StatusOr ValidationResult
    result vs = value (record { violations = map finalize_violation vs })

    go : (vs : List RuleViolation) → result vs ≡ no_violations → vs ≡ []
    go [] e = refl
    go (v ∷ vs) e = ground arith

no_violations-to_result :
    (r : Status × RuleContext) → r.0 ≡ ok → r.1.violations ≡ [] → to_result r ≡ no_violations
unfolding to_result finalize
no_violations-to_result (error code text, ctx) e e' = ground arith
no_violations-to_result (ok, ctx) e e' =
    ap (λ vs. value (record { violations = map finalize_violation vs })) e'

module _ (lib : Libraries) (schema : Schema) (get_message_rules : Descriptor → Option RulesOr) where
  -- Where a validation gives a result without violations, so does the same validation with
  -- `failFast` set or not set, whatever it was: failing fast never changes whether a message is
  -- valid.
  pub validate-fail_fast :
      (exhausted : Status) (fuel : ℕ) (b c : Bool) (clock : ℕ) (message : Message)
      → validate lib schema get_message_rules exhausted fuel
          (record { fail_fast = b })
          clock
          message
        ≡ no_violations
      → validate lib schema get_message_rules exhausted fuel
          (record { fail_fast = c })
          clock
          message
        ≡ no_violations
  unfolding validate
  validate-fail_fast exhausted fuel b c clock message e =
      let (is_ok, empty) = to_result-no_violations (run b) e in
      let same =
        (validate_message-IsLockstep lib schema get_message_rules exhausted fuel message
          (new_context b clock) c empty).1 in
      no_violations-to_result (run c) (ap (λ r. r.0) same ∙ is_ok)
        (ap (λ r. r.1.violations) same ∙ empty)
    where
      run : Bool → Status × RuleContext
      run fast =
          validate_message lib schema get_message_rules exhausted fuel message
            (new_context fast clock)

  -- Where every message that the walk goes into has a smaller number than the message it is in,
  -- a validation with more fuel than the number of the message is the same as with any other
  -- such fuel and any other answer where fuel runs out: the recursion ends.
  pub validate-exhausted :
      (rank : Message → ℕ)
      → IsRank lib schema get_message_rules rank
      → (e e' : Status) (n n' : ℕ) (validator : Validator) (clock : ℕ) (message : Message)
      → rank message < n
      → rank message < n'
      → validate lib schema get_message_rules e n validator clock message
        ≡ validate lib schema get_message_rules e' n' validator clock message
  unfolding validate
  validate-exhausted rank h e e' n n' validator clock message hn hn' = ap to_result (
      validate_message-Agrees lib schema get_message_rules rank h e e' n n' message hn hn'
        (new_context validator.fail_fast clock))
