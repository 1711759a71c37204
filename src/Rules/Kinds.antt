-- ===== src/Rules/Kinds.antt =====
-- ValidationRules of buf/validate/internal/validation_rules.h: the classes under it as one type, and
-- the virtual method Validate.
use protovalidate_cc.Base.{Bool, Option, List}
use protovalidate_cc.Proto.{Libraries, Message, Status, StatusOr}
use protovalidate_cc.Rules.Cel.{CelValidationRules}
use protovalidate_cc.Rules.Context.Monad.{M}
use protovalidate_cc.Rules.Field.{FieldValidationRules, validate_field, validate_enum}
use protovalidate_cc.Rules.Map.{validate_map}
use protovalidate_cc.Rules.Oneof.{
  OneofValidationRules, MessageOneofValidationRules, validate_message_rules, validate_oneof,
  validate_message_oneof,
}
use protovalidate_cc.Rules.Repeated.{validate_repeated}

-- the classes of rules of a field, with what they add to FieldValidationRules
pub data Subclass : Type 0 where
  plain : Subclass
  -- `definedOnly_`
  enum_rules : Bool → Subclass
  -- `itemRules_`
  repeated_rules : Option FieldValidationRules → Subclass
  -- `keyRules_` and `valueRules_`
  map_rules : Option FieldValidationRules → Option FieldValidationRules → Subclass

pub data ValidationRules : Type 0 where
  message_rules : CelValidationRules → ValidationRules
  field_validation_rules : FieldValidationRules → Subclass → ValidationRules
  oneof_rules : OneofValidationRules → ValidationRules
  message_oneof_rules : MessageOneofValidationRules → ValidationRules

-- `using Rules = absl::StatusOr<std::vector<…>>`
abbrev pub RulesOr : Type 0
RulesOr = StatusOr (List ValidationRules)

module _ (lib : Libraries) where
  unfoldable pub validate_subclass : FieldValidationRules → Subclass → Message → M Status
  unfolding validate_field validate_enum validate_repeated validate_map
  validate_subclass r plain message = validate_field lib r message
  validate_subclass r (enum_rules defined_only) message = validate_enum lib r defined_only message
  validate_subclass r (repeated_rules items) message = validate_repeated lib r items message
  validate_subclass r (map_rules keys values) message = validate_map lib r keys values message

  unfoldable pub validate : ValidationRules → Message → M Status
  unfolding validate_message_rules validate_subclass validate_oneof validate_message_oneof
  validate (message_rules r) message = validate_message_rules lib r message
  validate (field_validation_rules r subclass) message = validate_subclass r subclass message
  validate (oneof_rules r) message = validate_oneof lib r message
  validate (message_oneof_rules r) message = validate_message_oneof lib r message
