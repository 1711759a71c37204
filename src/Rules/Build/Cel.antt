-- ===== src/Rules/Build/Cel.antt =====
-- CelValidationRules::Add of buf/validate/internal/cel_validation_rules.cc, and BuildCelRules of
-- cel_rules.h.
use protovalidate_cc.Base.{
  Bool, not, ◌&&◌, Option, none, some, List, [], ◌∷◌, ◌++◌, if◌then◌else◌, Bytes, codes,
}
use protovalidate_cc.Proto.{
  Libraries, Message, FieldDescriptor, FieldDescriptors, RuleField, field_float, field_double,
  field_int32, field_int64, field_uint32, field_uint64, field_sint32, field_sint64, field_fixed32,
  field_fixed64, field_sfixed32, field_sfixed64, field_bool, field_string, field_bytes, StatusOr,
  failure, failed_precondition, cel_message,
}
use protovalidate_cc.Proto.Result.{pure, ◌>>=◌}
use protovalidate_cc.Rules.Cel.{Rule, CelValidationRules}
use protovalidate_cc.Rules.Options.{
  Schema, ScalarKind, kind_bool, kind_float, kind_double, kind_int32, kind_int64, kind_uint32,
  kind_uint64, kind_sint32, kind_sint64, kind_fixed32, kind_fixed64, kind_sfixed32, kind_sfixed64,
  kind_string, kind_bytes,
}
use protovalidate_cc.Rules.Path.Print.{FieldPathElement}
use protovalidate_cc.Rules.Path.{field_path_element, static_field_path_element}

-- `ruleFieldNumber<R>`, for a scalar's rules
unfoldable pub rule_field_number : ScalarKind → RuleField
rule_field_number kind_float = field_float
rule_field_number kind_double = field_double
rule_field_number kind_int32 = field_int32
rule_field_number kind_int64 = field_int64
rule_field_number kind_uint32 = field_uint32
rule_field_number kind_uint64 = field_uint64
rule_field_number kind_sint32 = field_sint32
rule_field_number kind_sint64 = field_sint64
rule_field_number kind_fixed32 = field_fixed32
rule_field_number kind_fixed64 = field_fixed64
rule_field_number kind_sfixed32 = field_sfixed32
rule_field_number kind_sfixed64 = field_sfixed64
rule_field_number kind_bool = field_bool
rule_field_number kind_string = field_string
rule_field_number kind_bytes = field_bytes

module _ (schema : Schema) where
  -- `CelValidationRules::Add`
  unfoldable pub add_rule :
      Rule
      → Option (List FieldPathElement)
      → Option FieldDescriptor
      → CelValidationRules
      → StatusOr CelValidationRules
  add_rule rule rule_path rule_field rules = do
    parsed ← schema.parse rule.expression
    expr ← schema.create_expression parsed
    pure (record rules {
      exprs =
          rules.exprs
          ++ (record { rule = rule; expr = expr; rule_path = rule_path; rule_field = rule_field }
              ∷ []);
    })

  -- the rule that an expression alone stands for
  abbrev pub expression_rule : Bytes → Rule
  expression_rule expression = record { id = expression; message = []; expression = expression }

  -- a loop of `Add`s
  unfoldable pub add_all :
      List (Rule × Option (List FieldPathElement))
      → Option FieldDescriptor
      → CelValidationRules
      → StatusOr CelValidationRules
  unfolding add_rule
  add_all [] rule_field rules = pure rules
  add_all ((rule, path) ∷ more) rule_field rules =
      add_rule rule path rule_field rules >>= add_all more rule_field

  -- the message that the rules are read from: `rules`, or what the factory makes of it
  unfoldable pub rules_message : Bool → Message → Message
  rules_message has_factory rules =
      if has_factory && schema.has_unknown rules
      then elim (schema.reparse rules) [ none ↦ rules | some reparsed ↦ reparsed ]
      else rules

  -- each of a list of rules, with the same path
  unfoldable pub with_path :
      List FieldPathElement → List Rule → List (Rule × Option (List FieldPathElement))
  with_path path [] = []
  with_path path (rule ∷ rules) = (rule, some path) ∷ with_path path rules

  module _ (lib : Libraries) where
    -- the predefined rules of the set fields
    unfoldable pub add_predefined :
        RuleField → FieldDescriptors → CelValidationRules → StatusOr CelValidationRules
    unfolding add_all with_path field_path_element static_field_path_element
    add_predefined kind [] rules = pure rules
    add_predefined kind (field ∷ fields) rules = elim (schema.predefined field) [
      | none ↦ add_predefined kind fields rules
      | some cel ↦
          add_all
            (with_path (field_path_element lib field ∷ static_field_path_element lib kind ∷ []) cel)
            (some field) rules
          >>= add_predefined kind fields
    ]

    -- `BuildCelRules`; the first tests are those of `messageFactory` and `allowUnknownFields`
    unfoldable pub build_cel_rules :
        Bool → Bool → RuleField → Message → CelValidationRules → StatusOr CelValidationRules
    unfolding add_predefined rules_message
    build_cel_rules has_factory allow_unknown kind rules result =
        let read = rules_message has_factory rules in
        if not allow_unknown && schema.has_unknown read
        then failure failed_precondition (codes "unknown rules in " ++ schema.type_name_of read)
        else add_predefined kind (lib.list_fields read) (record result { rules = cel_message read })
