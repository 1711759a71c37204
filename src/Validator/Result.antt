-- ===== src/Validator/Result.antt =====
-- `Validator::Validate` and ValidationResult of buf/validate/validator.h and validator.cc.
use protovalidate_cc.Base.{ℕ, Bool, Option, List, [], map, length, get_elem?}
use protovalidate_cc.Proto.{
  Libraries, Message, Descriptor, Status, ok, error, StatusOr, value, failure,
}
use protovalidate_cc.Rules.Context.{RuleContext, RuleViolation, Violation, finalize, is_empty}
use protovalidate_cc.Rules.Kinds.{RulesOr}
use protovalidate_cc.Rules.Options.{Schema}
use protovalidate_cc.Validator.{validate_message}

pub record ValidationResult : Type 0 where
  pub violations : List RuleViolation

pub record Validator : Type 0 where
  pub fail_fast : Bool

-- `ValidationResult::proto`
unfoldable pub proto : ValidationResult → List Violation
proto result = map (λ v. v.proto) result.violations

unfoldable pub success : ValidationResult → Bool
success result = is_empty result.violations

-- `violations(int)`; `none` is the exception of `at`
unfoldable pub violation_at : ValidationResult → ℕ → Option RuleViolation
violation_at result i = get_elem? result.violations i

unfoldable pub violations_size : ValidationResult → ℕ
violations_size result = length result.violations

-- the context that a validation begins with; the clock goes on
abbrev pub new_context : Bool → ℕ → RuleContext
new_context fail_fast clock = record { fail_fast = fail_fast; violations = []; clock = clock }

-- what follows `ValidateMessage`
unfoldable pub to_result : Status × RuleContext → StatusOr ValidationResult
unfolding finalize
to_result (error code text, ctx) = failure code text
to_result (ok, ctx) = value (record { violations = (finalize ctx).violations })

module _ (lib : Libraries) (schema : Schema) (get_message_rules : Descriptor → Option RulesOr) where
  -- `Validator::Validate`
  unfoldable pub validate : Status → ℕ → Validator → ℕ → Message → StatusOr ValidationResult
  unfolding to_result validate_message
  validate exhausted fuel validator clock message = to_result (
      validate_message lib schema get_message_rules exhausted fuel message
        (new_context validator.fail_fast clock))
