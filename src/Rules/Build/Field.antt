-- ===== src/Rules/Build/Field.antt =====
-- NewFieldRules of buf/validate/internal/field_rules.cc, the templates of field_rules.h, and the
-- constructor of FieldValidationRules.
pub mod Types
use protovalidate_cc.Base.{
  ℕ, zero, suc, Bool, true, false, not, ◌&&◌, ◌||◌, Option, none, some, List, [], ◌∷◌, ◌++◌,
  if◌then◌else◌, map, Bytes, codes,
}
use protovalidate_cc.Proto.Result.{pure, ◌>>=◌}
use protovalidate_cc.Proto.{
  Libraries, Message, Descriptor, FieldDescriptor, FieldType, same_type, type_double, type_float,
  type_int64, type_uint64, type_int32, type_fixed64, type_fixed32, type_bool, type_string,
  type_message, type_bytes, type_uint32, type_enum, type_sfixed32, type_sfixed64, type_sint32,
  type_sint64, RuleField, field_cel, field_cel_expression, field_enum, field_repeated, field_map,
  field_any, field_duration, field_field_mask, field_timestamp, StatusOr, value, failure,
  invalid_argument, failed_precondition, cel_null,
}
use protovalidate_cc.Rules.Build.Cel.{rule_field_number, add_all, expression_rule, build_cel_rules}
use protovalidate_cc.Rules.Cel.{Rule, CelValidationRules}
use protovalidate_cc.Rules.Field.Any.{AnyRules, equals}
use protovalidate_cc.Rules.Field.{FieldValidationRules, is_message}
use protovalidate_cc.Rules.Kinds.{Subclass, plain, enum_rules, repeated_rules, map_rules}
use protovalidate_cc.Rules.Options.{
  Schema, FieldRules, field_rules, FieldLevel, TypeRules, type_not_set, scalar_type, enum_type,
  duration_type, field_mask_type, timestamp_type, any_type, repeated_type, items_type, map_type,
  unknown_type, Ignore, ignore_unspecified, ignore_if_zero_value, ignore_always, ignore_of,
  ScalarKind, kind_bool, kind_float, kind_double, kind_int32, kind_int64, kind_uint32, kind_uint64,
  kind_sint32, kind_sint64, kind_fixed32, kind_fixed64, kind_sfixed32, kind_sfixed64, kind_string,
  kind_bytes,
}
use protovalidate_cc.Rules.Path.Print.{FieldPathElement, at_index}
use protovalidate_cc.Rules.Path.{static_field_path_element}

-- the `switch`'s expected type and wrapper; those without a wrapper have the empty name
unfoldable pub scalar_case : ScalarKind → FieldType × Bytes
scalar_case kind_bool = (type_bool, codes "google.protobuf.BoolValue")
scalar_case kind_float = (type_float, codes "google.protobuf.FloatValue")
scalar_case kind_double = (type_double, codes "google.protobuf.DoubleValue")
scalar_case kind_int32 = (type_int32, codes "google.protobuf.Int32Value")
scalar_case kind_int64 = (type_int64, codes "google.protobuf.Int64Value")
scalar_case kind_uint32 = (type_uint32, codes "google.protobuf.UInt32Value")
scalar_case kind_uint64 = (type_uint64, codes "google.protobuf.UInt64Value")
scalar_case kind_sint32 = (type_sint32, [])
scalar_case kind_sint64 = (type_sint64, [])
scalar_case kind_fixed32 = (type_fixed32, [])
scalar_case kind_fixed64 = (type_fixed64, [])
scalar_case kind_sfixed32 = (type_sfixed32, [])
scalar_case kind_sfixed64 = (type_sfixed64, [])
scalar_case kind_string = (type_string, codes "google.protobuf.StringValue")
scalar_case kind_bytes = (type_bytes, codes "google.protobuf.BytesValue")

-- the constructor of FieldValidationRules
unfoldable pub field_validation :
    Libraries → FieldDescriptor → FieldRules → Option AnyRules → FieldValidationRules
field_validation lib field (field_rules l t) any_rules = record {
  cel = record { rules = cel_null; exprs = [] };
  field_rules = l.address;
  field = field;
  ignore_empty =
      is_zero_ignored (ignore_of (field_rules l t))
      || (lib.has_presence field && not (lib.in_map_entry field));
  required = l.required;
  any_rules = any_rules;
}
  where
    is_zero_ignored : Ignore → Bool
    is_zero_ignored ignore_if_zero_value = true
    is_zero_ignored _ = false

-- what NewFieldRules makes, `none` for a null pointer
abbrev pub FieldRulesOr : Type 0
FieldRulesOr = StatusOr (Option (FieldValidationRules × Subclass))

-- a pointer to the base class
abbrev pub base : Option (FieldValidationRules × Subclass) → Option FieldValidationRules
base none = none
base (some (r, subclass)) = some r

module _ (lib : Libraries) (schema : Schema) (has_factory : Bool) (allow_unknown : Bool) where
  -- `BuildCelRules` on the rules that are made
  unfoldable pub build_into :
      RuleField → Message → FieldValidationRules → StatusOr FieldValidationRules
  unfolding build_cel_rules
  build_into kind rules r = do
    cel ← build_cel_rules schema lib has_factory allow_unknown kind rules r.cel
    pure (record r { cel = cel })

  -- `field type does not match rule type: _ != _`
  abbrev pub mismatch {ℓ} : {A : Type ℓ} → Bytes → FieldType → StatusOr A
  mismatch found expected = failure failed_precondition (
      codes "field type does not match rule type: "
      ++ (found ++ (codes " != " ++ lib.type_text expected)))

  -- `BuildScalarFieldRules`
  unfoldable pub build_scalar_field_rules :
      FieldDescriptor
      → FieldType
      → Bytes
      → RuleField
      → Message
      → FieldValidationRules
      → StatusOr FieldValidationRules
  unfolding build_into equals
  build_scalar_field_rules field expected wrapper kind rules r =
      if same_type (lib.field_type field) expected
      then build_into kind rules r
      else if same_type (lib.field_type field) type_message
      then (if equals (lib.descriptor_name (lib.message_type field)) wrapper
          then build_into kind rules r
          else mismatch (lib.type_name field) expected)
      else mismatch (lib.type_text (lib.field_type field)) expected

  -- `NewScalarFieldRules`
  unfoldable pub new_scalar_field_rules :
      FieldDescriptor → FieldRules → ScalarKind → Message → StatusOr FieldValidationRules
  unfolding field_validation build_scalar_field_rules rule_field_number scalar_case
  new_scalar_field_rules field level kind rules =
      let (expected, wrapper) = scalar_case kind in
      build_scalar_field_rules field expected wrapper (rule_field_number kind) rules
        (field_validation lib field level none)

  -- the cases of Duration, FieldMask, Timestamp and Any
  unfoldable pub new_well_known_rules :
      Bytes
      → Bytes
      → FieldDescriptor
      → RuleField
      → Message
      → FieldValidationRules
      → StatusOr FieldValidationRules
  unfolding build_into equals
  new_well_known_rules name message field kind rules r =
      if is_message (lib.cpp_type field)
        && equals (lib.descriptor_name (lib.message_type field)) name
      then build_into kind rules r
      else failure invalid_argument message

  -- the rules `cel_expression` and `cel`, with their paths, from an index on
  unfoldable pub indexed_rules :
      RuleField → ℕ → List Rule → List (Rule × Option (List FieldPathElement))
  unfolding static_field_path_element
  indexed_rules f i [] = []
  indexed_rules f i (rule ∷ rules) =
      (rule, some (record (static_field_path_element lib f) { subscript = at_index i } ∷ []))
      ∷ indexed_rules f (suc i) rules

  abbrev pub expression_rules : List Bytes → List Rule
  expression_rules = map (expression_rule schema)

  -- `if (rules_or.ok()) { … }`
  unfoldable pub add_level_rules : FieldLevel → FieldValidationRules → StatusOr FieldValidationRules
  unfolding add_all indexed_rules
  add_level_rules l r = do
    with_expressions ←
        add_all schema (indexed_rules field_cel_expression 0 (expression_rules l.cel_expression))
          none r.cel
    with_rules ← add_all schema (indexed_rules field_cel 0 l.cel) none with_expressions
    pure (record r { cel = with_rules })

  -- the class, where the rules are there
  abbrev pub as_class :
      Subclass → StatusOr FieldValidationRules → StatusOr (FieldValidationRules × Subclass)
  as_class subclass r = r >>= λ rules. pure (rules, subclass)

  -- the end of NewFieldRules
  unfoldable pub complete_rules :
      FieldLevel → StatusOr (FieldValidationRules × Subclass) → FieldRulesOr
  unfolding add_level_rules
  complete_rules l made = do
    (r, subclass) ← made
    complete ← add_level_rules l r
    pure (some (complete, subclass))

  -- the case of RepeatedRules, by what NewFieldRules makes of the items
  unfoldable pub new_repeated_rules :
      FieldDescriptor
      → FieldLevel
      → TypeRules
      → Message
      → FieldRulesOr
      → StatusOr (FieldValidationRules × Subclass)
  unfolding field_validation build_into
  new_repeated_rules field l t rules made =
      if not (lib.is_repeated field)
      then failure invalid_argument (codes "repeated field validator on non-repeated field")
      else if lib.is_map field
      then failure invalid_argument (codes "repeated field validator on map field")
      else made >>= λ items.
          as_class (repeated_rules (base items))
            (build_into field_repeated rules (field_validation lib field (field_rules l t) none))

  -- the case of MapRules, by what it makes of the keys and the values
  unfoldable pub new_map_rules :
      FieldDescriptor
      → FieldLevel
      → TypeRules
      → Message
      → FieldRulesOr
      → FieldRulesOr
      → StatusOr (FieldValidationRules × Subclass)
  unfolding field_validation build_into
  new_map_rules field l t rules made_keys made_values =
      if not (lib.is_map field)
      then failure invalid_argument (codes "map field validator on non-map field")
      else made_keys >>= λ keys. made_values >>= λ values.
          as_class (map_rules (base keys) (base values))
            (build_into field_map rules (field_validation lib field (field_rules l t) none))

  -- `NewFieldRules`, and its `switch` on the type
  unfoldable mutual
    unfolding complete_rules field_validation new_scalar_field_rules build_scalar_field_rules
        new_well_known_rules new_repeated_rules new_map_rules

    pub new_field_rules : FieldDescriptor → FieldRules → FieldRulesOr
    new_field_rules field (field_rules l t) =
        let made = new_type_rules field l t in
        elim (ignore_of (field_rules l t)) [
          | ignore_always ↦ pure none
          | ignore_unspecified ↦ complete_rules l made
          | ignore_if_zero_value ↦ complete_rules l made
        ]

    pub new_type_rules :
        FieldDescriptor → FieldLevel → TypeRules → StatusOr (FieldValidationRules × Subclass)
    new_type_rules field l type_not_set =
        value (field_validation lib field (field_rules l type_not_set) none, plain)
    new_type_rules field l (scalar_type kind rules) =
        as_class plain
          (new_scalar_field_rules field (field_rules l (scalar_type kind rules)) kind rules)
    new_type_rules field l (enum_type rules defined_only) = as_class (enum_rules defined_only) (
        build_scalar_field_rules field type_enum [] field_enum rules
          (field_validation lib field (field_rules l (enum_type rules defined_only)) none))
    new_type_rules field l (duration_type rules) = as_class plain (
        new_well_known_rules schema.duration_name
          (codes "duration field validator on non-duration field") field field_duration rules
          (field_validation lib field (field_rules l (duration_type rules)) none))
    new_type_rules field l (field_mask_type rules) = as_class plain (
        new_well_known_rules schema.field_mask_name
          (codes "field_mask field validator on non-field_mask field") field field_field_mask rules
          (field_validation lib field (field_rules l (field_mask_type rules)) none))
    new_type_rules field l (timestamp_type rules) = as_class plain (
        new_well_known_rules schema.timestamp_name
          (codes "timestamp field validator on non-timestamp field") field field_timestamp rules
          (field_validation lib field (field_rules l (timestamp_type rules)) none))
    new_type_rules field l (any_type rules any) = as_class plain (
        new_well_known_rules schema.any_name (codes "any field validator on non-any field") field
          field_any rules
          (field_validation lib field (field_rules l (any_type rules any)) (some any)))
    new_type_rules field l (repeated_type rules) =
        new_repeated_rules field l (repeated_type rules) rules (value none)
    new_type_rules field l (items_type rules items) =
        new_repeated_rules field l (items_type rules items) rules (new_field_rules field items)
    new_type_rules field l (map_type rules keys values) =
        new_map_rules field l (map_type rules keys values) rules
          (new_field_rules (schema.field_at (lib.message_type field) 0) keys)
          (new_field_rules (schema.field_at (lib.message_type field) 1) values)
    new_type_rules field l (unknown_type n) =
        failure invalid_argument (codes "unknown field validator type " ++ schema.number_text n)
