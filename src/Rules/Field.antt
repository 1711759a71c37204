-- ===== src/Rules/Field.antt =====
-- FieldValidationRules of buf/validate/internal/rules.h and rules.cc, EnumValidationRules included.
pub mod Any
use protovalidate_cc.Base.{
  ℕ, Bool, true, false, not, ◌&&◌, ◌||◌, Option, none, some, List, [], ◌∷◌, ◌==◌, ltb,
  if◌then◌else◌, Bytes, codes,
}
use protovalidate_cc.Proto.{
  Libraries, Message, FieldDescriptor, CppType, cpp_message, RuleField, field_required, field_enum,
  enum_defined_only, Status, ok, error, is_ok, StatusOr, value, failure, CelValue, Activation,
}
use protovalidate_cc.Rules.Cel.{CelValidationRules, validate_cel}
use protovalidate_cc.Rules.Context.Monad.{M, pure, ◌>>=◌, ◌>>◌, size, returns, emplace_back, modify}
use protovalidate_cc.Rules.Context.{
  RuleContext, RuleViolation, Violation, ProtoField, append_field_path_element, set_field_value,
}
use protovalidate_cc.Rules.Path.{field_path_element, static_field_path_element}
use Any.{AnyRules, validate_any}

pub record FieldValidationRules : Type 0 where
  pub cel : CelValidationRules
  -- the address of `fieldRules_`
  pub field_rules : Message
  pub field : FieldDescriptor
  pub ignore_empty : Bool
  pub required : Bool
  pub any_rules : Option AnyRules

abbrev pub is_message : CppType → Bool
is_message cpp_message = true
is_message _ = false

module _ (lib : Libraries) where
  -- a new activation, with "this" inserted
  abbrev pub this_is : CelValue → Activation
  this_is v = record { this = lib.insert_value none v; rules = none; rule = none; now = none }

  unfoldable pub required_violation : FieldValidationRules → Message → RuleViolation
  unfolding field_path_element static_field_path_element
  required_violation r message = record {
    proto = record {
      rule_id = codes "required";
      message = codes "value is required";
      path = some (field_path_element lib r.field ∷ []);
      rule_path = some (static_field_path_element lib field_required ∷ []);
      for_key = false;
    };
    field_value = some (record { message = message; descriptor = r.field; index = none });
    rule_value = some (record {
      message = r.field_rules;
      descriptor = lib.rule_field field_required;
      index = none;
    });
  }

  -- from `activation.InsertValue("this", result)` on
  unfoldable pub validate_value : FieldValidationRules → Message → CelValue → M Status
  unfolding validate_cel append_field_path_element set_field_value field_path_element
  validate_value r message result = do
    pos ← size
    (status, _) ← validate_cel lib r.cel (this_is result)
    grown ← size
    if is_ok status && ltb pos grown
        then (do
          modify (append_field_path_element (field_path_element lib r.field) pos)
          modify (
              set_field_value (record { message = message; descriptor = r.field; index = none })
                pos)
          pure status)
        else pure status

  -- a map or a list: an empty one is ignored, or missing, or validated
  unfoldable pub validate_collection : FieldValidationRules → Message → ℕ → CelValue → M Status
  unfolding validate_value required_violation
  validate_collection r message entries result =
      if entries == 0 && r.ignore_empty
      then pure ok
      else if entries == 0 && r.required
      then emplace_back (required_violation r message) >> pure ok
      else validate_value r message result

  -- `CreateValueFromSingleField`, and what follows it
  unfoldable pub validate_present : FieldValidationRules → Message → M Status
  unfolding validate_value
  validate_present r message = elim (lib.single_value message r.field) [
    | failure code text ↦ pure (error code text)
    | value result ↦ validate_value r message result
  ]

  unfoldable pub validate_single_any : FieldValidationRules → Message → AnyRules → M Status
  unfolding validate_any
  validate_single_any r message any =
      validate_any lib any r.field_rules
        (record { message = message; descriptor = r.field; index = none })
        (lib.get_message message r.field)

  unfoldable pub validate_single : FieldValidationRules → Message → M Status
  unfolding validate_single_any validate_present required_violation
  validate_single r message =
      if not (lib.has_field message r.field) && r.required
      then emplace_back (required_violation r message) >> pure ok
      else if not (lib.has_field message r.field) && r.ignore_empty
      then pure ok
      else elim r.any_rules [
        | none ↦ validate_present r message
        | some any ↦
            if is_message (lib.cpp_type r.field)
            then (do
              status ← validate_single_any r message any
              if is_ok status then validate_present r message else pure status)
            else validate_present r message
      ]

  -- `FieldValidationRules::Validate`
  unfoldable pub validate_field : FieldValidationRules → Message → M Status
  unfolding validate_collection validate_single
  validate_field r message =
      if lib.is_map r.field
      then validate_collection r message (lib.map_size message r.field)
          (lib.map_value message r.field)
      else if lib.is_repeated r.field
      then validate_collection r message (lib.list_size message r.field)
          (lib.list_value message r.field)
      else validate_single r message

  unfoldable pub defined_only_violation : FieldValidationRules → Message → RuleViolation
  unfolding field_path_element
  defined_only_violation r message = record {
    proto = record {
      rule_id = codes "enum.defined_only";
      message = codes "value must be one of the defined enum values";
      path = some (field_path_element lib r.field ∷ []);
      rule_path = some (
          field_path_element lib (lib.rule_field enum_defined_only)
          ∷ field_path_element lib (lib.rule_field field_enum)
          ∷ []);
      for_key = false;
    };
    field_value = some (record { message = message; descriptor = r.field; index = none });
    rule_value = some (record {
      message = lib.enum_of r.field_rules;
      descriptor = lib.rule_field enum_defined_only;
      index = none;
    });
  }

  -- `if (definedOnly_) { … }`
  unfoldable pub check_defined : FieldValidationRules → Bool → Message → M Status
  unfolding defined_only_violation
  check_defined r defined_only message =
      if defined_only && not (lib.enum_has_value r.field (lib.get_enum_value message r.field))
      then emplace_back (defined_only_violation r message) >> pure ok
      else pure ok

  -- `EnumValidationRules::Validate`
  unfoldable pub validate_enum : FieldValidationRules → Bool → Message → M Status
  unfolding validate_field check_defined
  validate_enum r defined_only message = do
    status ← validate_field r message
    stop ← returns status
    if stop then pure status else check_defined r defined_only message
