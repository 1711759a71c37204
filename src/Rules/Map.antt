-- ===== src/Rules/Map.antt =====
-- MapValidationRules of buf/validate/internal/rules.cc. One activation serves all entries, and what a
-- run of `ValidateCel` leaves in it is there for the next.
use protovalidate_cc.Base.{
  ℕ, not, ◌||◌, Option, none, some, List, [], ◌∷◌, ltb, if◌then◌else◌, codes,
}
use protovalidate_cc.Proto.{
  Libraries, Message, FieldDescriptor, RuleField, map_keys, map_values, field_map, Status, ok,
  error, is_ok, value, failure, CelValue, Activation,
}
use protovalidate_cc.Rules.Cel.{validate_cel}
use protovalidate_cc.Rules.Context.Monad.{M, pure, ◌>>=◌, ◌>>◌, size, modify, fails_fast, counting}
use protovalidate_cc.Rules.Context.{
  append_field_path_element, append_rule_path_element, set_field_value, set_for_key,
}
use protovalidate_cc.Rules.Field.{FieldValidationRules, validate_field}
use protovalidate_cc.Rules.Path.Print.{FieldPathElement}
use protovalidate_cc.Rules.Path.{field_path_element, set_path_element_map_key}
use protovalidate_cc.Rules.Repeated.{is_empty_item}

-- an entry: its message and its two fields
pub record Entry : Type 0 where
  pub message : Message
  pub key_field : FieldDescriptor
  pub value_field : FieldDescriptor

module _ (lib : Libraries) where
  -- `MapRules::_` and `FieldRules::map`
  unfoldable pub map_rule_elements : RuleField → List FieldPathElement
  unfolding field_path_element
  map_rule_elements f =
      field_path_element lib (lib.rule_field f)
      ∷ field_path_element lib (lib.rule_field field_map)
      ∷ []

  -- `if (ctx.violations.size() > pos) { … }` of a key
  unfoldable pub tag_key : Entry → ℕ → M (Unit {0})
  unfolding map_rule_elements append_rule_path_element set_field_value set_for_key
  tag_key entry pos = do
    grown ← size
    if ltb pos grown
        then (do
          modify (append_rule_path_element (map_rule_elements map_keys) pos)
          modify (
              set_field_value
                (record { message = entry.message; descriptor = entry.key_field; index = none })
                pos)
          modify (set_for_key pos))
        else pure tt

  -- the same of a value, whose field is set from the entry's first violation on
  unfoldable pub tag_value : Entry → ℕ → ℕ → M (Unit {0})
  unfolding map_rule_elements append_rule_path_element set_field_value
  tag_value entry pos value_pos = do
    grown ← size
    if ltb value_pos grown
        then (do
          modify (append_rule_path_element (map_rule_elements map_values) value_pos)
          modify (
              set_field_value
                (record { message = entry.message; descriptor = entry.value_field; index = none })
                pos))
        else pure tt

  -- the rules of a key or a value, where there are any; `tag` gets the size in front
  unfoldable pub validate_part :
      Option FieldValidationRules
      → CelValue
      → (ℕ → M (Unit {0}))
      → Activation
      → M (Status × Activation)
  unfolding validate_cel is_empty_item
  validate_part none item tag activation = pure (ok, activation)
  validate_part (some rules) item tag activation =
      if not rules.ignore_empty || not (is_empty_item item)
      then (do
        start ← size
        (status, left) ←
            validate_cel lib rules.cel
              (record activation { this = lib.insert_value activation.this item })
        if is_ok status
            then tag start >> pure (status, record left { this = none })
            else pure (status, left))
      else pure (ok, activation)

  -- `if (ctx.violations.size() > pos) { … }` at the end of a round
  unfoldable pub tag_entry : FieldDescriptor → Entry → ℕ → M (Option Status)
  unfolding set_path_element_map_key append_field_path_element field_path_element
  tag_entry field entry pos = do
    grown ← size
    if ltb pos grown
        then elim (set_path_element_map_key lib (field_path_element lib field) entry.message
            entry.key_field entry.value_field) [
              | failure code message ↦ pure (some (error code message))
              | value element ↦ do
                modify (append_field_path_element element pos)
                fast ← fails_fast
                pure (if fast then some ok else none)
            ]
        else pure none

  -- a round of the loop: the answer to return, and the activation
  unfoldable pub entry_round :
      FieldDescriptor
      → Option FieldValidationRules
      → Option FieldValidationRules
      → Entry
      → CelValue
      → CelValue
      → Activation
      → M (Option Status × Activation)
  unfolding validate_part tag_key tag_value tag_entry
  entry_round field key_rules value_rules entry key item activation = do
    pos ← size
    (key_status, key_left) ← validate_part key_rules key (tag_key entry) activation
    if is_ok key_status
        then (do
          (status, left) ← validate_part value_rules item (tag_value entry pos) key_left
          if is_ok status
              then (do answer ← tag_entry field entry pos; pure (answer, left))
              else pure (some status, left))
        else pure (some key_status, key_left)

  -- the loop over the entries
  unfoldable pub entry_loop :
      (ℕ → Activation → M (Option Status × Activation)) → List ℕ → Activation → M Status
  entry_loop round [] activation ctx = (ok, ctx)
  entry_loop round (i ∷ is) activation ctx =
      let ((answer, left), ctx') = round i activation ctx in
      elim answer [ none ↦ entry_loop round is left ctx' | some status ↦ (status, ctx') ]

  abbrev pub empty_activation : Activation
  empty_activation = record { this = none; rules = none; rule = none; now = none }

  -- the fields that the entries have; where one is missing the code goes on with a null pointer
  abbrev pub field_or_null : Option FieldDescriptor → FieldDescriptor
  field_or_null none = 0
  field_or_null (some f) = f

  unfoldable pub validate_entries :
      FieldValidationRules
      → Option FieldValidationRules
      → Option FieldValidationRules
      → Message
      → M Status
  unfolding entry_loop entry_round counting
  validate_entries r key_rules value_rules message = elim (lib.list_keys message r.field) [
    | failure code text ↦ pure (error code text)
    | value keys ↦
        entry_loop
          (λ i.
            entry_round r.field key_rules value_rules
              (record {
                message = lib.get_repeated_message message r.field i;
                key_field =
                    field_or_null (lib.field_by_name (lib.message_type r.field) (codes "key"));
                value_field =
                    field_or_null (lib.field_by_name (lib.message_type r.field) (codes "value"));
              })
              (keys i) (lib.map_at message r.field (keys i)))
          (counting (lib.map_size message r.field) 0) empty_activation
  ]

  -- `MapValidationRules::Validate`
  unfoldable pub validate_map :
      FieldValidationRules
      → Option FieldValidationRules
      → Option FieldValidationRules
      → Message
      → M Status
  unfolding validate_field validate_entries
  validate_map r none none message = validate_field lib r message
  validate_map r key_rules value_rules message = do
    status ← validate_field lib r message
    if is_ok status then validate_entries r key_rules value_rules message else pure status
