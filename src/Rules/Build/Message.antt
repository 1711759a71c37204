-- ===== src/Rules/Build/Message.antt =====
-- BuildMessageRules and NewMessageRules of buf/validate/internal/message_rules.cc.
pub mod Oneofs
use protovalidate_cc.Base.{
  Bool, true, false, not, ◌&&◌, ◌||◌, Option, none, some, List, [], ◌∷◌, ◌++◌, if◌then◌else◌, map,
  Bytes, codes,
}
use protovalidate_cc.Proto.Result.{pure, ◌>>=◌}
use protovalidate_cc.Proto.{
  Libraries, Descriptor, FieldDescriptor, FieldDescriptors, OneofDescriptor, StatusOr, value,
  failure, failed_precondition, cel_null,
}
use protovalidate_cc.Rules.Build.Cel.{add_all, expression_rule}
use protovalidate_cc.Rules.Build.Field.{new_field_rules, complete_rules}
use protovalidate_cc.Rules.Cel.{Rule, CelValidationRules}
use protovalidate_cc.Rules.Context.{is_empty}
use protovalidate_cc.Rules.Field.Any.{found_in}
use protovalidate_cc.Rules.Kinds.{
  ValidationRules, message_rules, field_validation_rules, oneof_rules, message_oneof_rules, RulesOr,
}
use protovalidate_cc.Rules.Options.{
  Schema, FieldRules, field_rules, FieldLevel, MessageRules, MessageOneofRule, Ignore,
  ignore_if_zero_value,
}
use protovalidate_cc.Rules.Path.Print.{FieldPathElement}

-- rules with no path
abbrev pub no_path : List Rule → List (Rule × Option (List FieldPathElement))
no_path [] = []
no_path (rule ∷ rules) = (rule, none) ∷ no_path rules

abbrev pub is_some {ℓ} : {A : Type ℓ} → Option A → Bool
is_some none = false
is_some (some a) = true

-- `set_ignore(IGNORE_IF_ZERO_VALUE)`
abbrev pub with_zero_ignored : FieldRules → FieldRules
with_zero_ignored (field_rules l t) =
    field_rules (record l { ignore = some ignore_if_zero_value }) t

-- `has_ignore()`
abbrev pub has_ignore : FieldRules → Bool
has_ignore (field_rules l t) = is_some l.ignore

module _ (lib : Libraries) (schema : Schema) (has_factory : Bool) (allow_unknown : Bool) where
  -- `BuildMessageRules`
  unfoldable pub build_message_rules : MessageRules → StatusOr CelValidationRules
  unfolding add_all
  build_message_rules rules = do
    with_expressions ←
        add_all schema (no_path (map (expression_rule schema) rules.cel_expression)) none
          (record { rules = cel_null; exprs = [] })
    add_all schema (no_path rules.cel) none with_expressions

  abbrev pub oneof_failure {ℓ} : {A : Type ℓ} → Bytes → Descriptor → StatusOr A
  oneof_failure text descriptor =
      failure failed_precondition (text ++ lib.descriptor_name descriptor)

  -- the loop over the names of a oneof rule; `seen` holds those in front, the last one first
  unfoldable pub oneof_fields : Descriptor → List Bytes → List Bytes → StatusOr FieldDescriptors
  unfolding found_in
  oneof_fields descriptor seen [] = pure []
  oneof_fields descriptor seen (name ∷ names) =
      let rest = oneof_fields descriptor (name ∷ seen) names in
      if found_in name seen
      then oneof_failure
          (codes "duplicate \"" ++ (name ++ codes "\"  in oneof rule for the message ")) descriptor
      else elim (lib.field_by_name descriptor name) [
        | none ↦
            oneof_failure (codes "field \"" ++ (name ++ codes "\" not found in message "))
              descriptor
        | some field ↦ rest >>= λ fields. pure (field ∷ fields)
      ]

  -- a round of the loop over the oneof rules
  unfoldable pub message_oneof : Descriptor → MessageOneofRule → StatusOr ValidationRules
  unfolding oneof_fields
  message_oneof descriptor rule =
      if is_empty rule.fields
      then oneof_failure
          (codes "at least one field must be specified in oneof rule for the message ") descriptor
      else do
        fields ← oneof_fields descriptor [] rule.fields
        pure (message_oneof_rules (record { fields = fields; required = rule.required }))

  unfoldable pub message_oneofs :
      Descriptor → List MessageOneofRule → StatusOr (List ValidationRules)
  unfolding message_oneof
  message_oneofs descriptor [] = pure []
  message_oneofs descriptor (rule ∷ rules) = do
    first ← message_oneof descriptor rule
    rest ← message_oneofs descriptor rules
    pure (first ∷ rest)

  -- the names that `allMsgOneofs` holds
  unfoldable pub oneof_names : List MessageOneofRule → List Bytes
  oneof_names [] = []
  oneof_names (rule ∷ rules) = rule.fields ++ oneof_names rules

  -- the part under `HasExtension(buf::validate::message)`, and `allMsgOneofs`
  unfoldable pub message_level_rules : Descriptor → StatusOr (List ValidationRules × List Bytes)
  unfolding build_message_rules message_oneofs oneof_names
  message_level_rules descriptor = elim (schema.message_level descriptor) [
    | none ↦ pure ([], [])
    | some level ↦ do
      cel ← build_message_rules level
      oneofs ← message_oneofs descriptor level.oneof
      pure (message_rules cel ∷ oneofs, oneof_names level.oneof)
  ]

  -- the rules of a field in a oneof rule are a copy that ignores the zero value
  unfoldable pub field_level_rules : List Bytes → FieldDescriptor → FieldRules → FieldRules
  unfolding found_in
  field_level_rules names field rules =
      if not (has_ignore rules) && found_in (lib.field_name field) names
      then with_zero_ignored (schema.copy_from rules)
      else rules

  -- the loop over the fields
  unfoldable pub message_fields : List Bytes → FieldDescriptors → StatusOr (List ValidationRules)
  unfolding new_field_rules field_level_rules
  message_fields names [] = pure []
  message_fields names (field ∷ fields) =
      let rest = message_fields names fields in
      elim (schema.field_level field) [
        | none ↦ rest
        | some rules ↦
            new_field_rules lib schema has_factory allow_unknown field
              (field_level_rules names field rules)
            >>= λ made. elim made [
              | none ↦ rest
              | some r ↦ rest >>= λ more. pure (field_validation_rules (r.0) (r.1) ∷ more)
            ]
      ]

  -- the loop over the oneofs
  unfoldable pub message_oneof_decls : List OneofDescriptor → List ValidationRules
  message_oneof_decls [] = []
  message_oneof_decls (oneof ∷ oneofs) = elim (schema.oneof_level oneof) [
    | none ↦ message_oneof_decls oneofs
    | some required ↦
        oneof_rules (record { oneof = oneof; required = required }) ∷ message_oneof_decls oneofs
  ]

  -- `NewMessageRules`
  unfoldable pub new_message_rules : Descriptor → RulesOr
  unfolding message_level_rules message_fields message_oneof_decls
  new_message_rules descriptor = do
    (level, names) ← message_level_rules descriptor
    fields ← message_fields names (schema.descriptor_fields descriptor)
    pure (level ++ (fields ++ message_oneof_decls (schema.oneof_decls descriptor)))
