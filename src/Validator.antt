-- ===== src/Validator.antt =====
-- Validator and ValidationResult of buf/validate/validator.h and validator.cc. The rules of a message
-- come from the factory, an argument here. The recursion into messages is on fuel; `exhausted` is the
-- answer where it runs out.
pub mod Result
pub mod Lockstep
pub mod Fuel
pub mod Outcome
pub mod Paths
use protovalidate_cc.Base.{
  ℕ, zero, suc, Bool, true, false, not, ◌&&◌, ◌||◌, Option, none, some, List, [], ◌∷◌, ◌++◌, ltb,
  if◌then◌else◌, map, codes, length, get_elem?,
}
use protovalidate_cc.Proto.{
  Libraries, Message, Descriptor, FieldDescriptor, CppType, cpp_message, Status, ok, error,
  StatusOr, value, failure, not_found, internal,
}
use protovalidate_cc.Rules.Context.Monad.{
  M, pure, ◌>>=◌, ◌>>◌, size, modify, each, for_each, return_or_go_on, counting, indices,
}
use protovalidate_cc.Rules.Context.{
  RuleContext, RuleViolation, Violation, append_field_path_element, finalize, is_empty,
  should_return,
}
use protovalidate_cc.Rules.Field.{is_message}
use protovalidate_cc.Rules.Kinds.{ValidationRules, RulesOr, validate}
use protovalidate_cc.Rules.Options.{
  Schema, FieldRules, field_rules, TypeRules, items_type, map_type, Ignore, ignore_always,
  ignore_of,
}
use protovalidate_cc.Rules.Path.Print.{FieldPathElement, at_index}
use protovalidate_cc.Rules.Path.{field_path_element, set_path_element_map_key}

abbrev pub always : Ignore → Bool
always ignore_always = true
always _ = false

-- the three tests on the rules of a field
unfoldable pub skipped : FieldRules → Bool
skipped (field_rules l (items_type address items)) =
    always (ignore_of (field_rules l (items_type address items))) || always (ignore_of items)
skipped (field_rules l (map_type address keys values)) =
    always (ignore_of (field_rules l (map_type address keys values))) || always (ignore_of values)
skipped rules = always (ignore_of rules)

module _ (lib : Libraries) (schema : Schema) (get_message_rules : Descriptor → Option RulesOr) where
  unfoldable pub is_skipped : FieldDescriptor → Bool
  unfolding skipped
  is_skipped field = elim (schema.field_level field) [ none ↦ false | some rules ↦ skipped rules ]

  -- `if (pos < ctx.violations.size()) ctx.appendFieldPathElement(element, pos);`
  unfoldable pub tag_message : FieldPathElement → ℕ → M (Unit {0})
  unfolding append_field_path_element
  tag_message element pos = do
    grown ← size
    if ltb pos grown then modify (append_field_path_element element pos) else pure tt

  -- a message in a field, an item of a repeated one or not
  unfoldable pub sub_message : (Message → M Status) → FieldPathElement → Message → M (Option Status)
  unfolding tag_message return_or_go_on
  sub_message recur element message = do
    pos ← size
    status ← recur message
    tag_message element pos
    return_or_go_on status

  -- the path's element with the entry's key, where there are violations; then the test of the status
  unfoldable pub tag_sub_entry :
      FieldDescriptor → FieldDescriptor → FieldDescriptor → Message → ℕ → Status → M (Option Status)
  unfolding set_path_element_map_key field_path_element append_field_path_element return_or_go_on
  tag_sub_entry field key_field value_field entry pos status = do
    grown ← size
    if ltb pos grown
        then elim (set_path_element_map_key lib (field_path_element lib field) entry key_field
            value_field) [
              | failure code text ↦ pure (some (error code text))
              | value element ↦
                  modify (append_field_path_element element pos) >> return_or_go_on status
            ]
        else return_or_go_on status

  -- a round of the loop over the entries of a map
  unfoldable pub sub_entry :
      (Message → M Status)
      → FieldDescriptor
      → FieldDescriptor
      → FieldDescriptor
      → Message
      → ℕ
      → M (Option Status)
  unfolding tag_sub_entry
  sub_entry recur field key_field value_field message i = do
    let entry = lib.get_repeated_message message field i
    pos ← size
    status ← recur (lib.get_message entry value_field)
    tag_sub_entry field key_field value_field entry pos status

  unfoldable pub map_field : (Message → M Status) → Message → FieldDescriptor → M (Option Status)
  unfolding sub_entry each counting
  map_field recur message field = elim (lib.field_by_name (lib.message_type field) (codes "key")) [
    | none ↦ pure (some (error internal (codes "map entry missing key or value field")))
    | some key_field ↦ elim (lib.field_by_name (lib.message_type field) (codes "value")) [
      | none ↦ pure (some (error internal (codes "map entry missing key or value field")))
      | some value_field ↦
          if is_message (lib.cpp_type value_field)
          then each (sub_entry recur field key_field value_field message)
              (indices (lib.field_size message field))
          else pure none
    ]
  ]

  unfoldable pub repeated_field :
      (Message → M Status) → Message → FieldDescriptor → M (Option Status)
  unfolding sub_message each counting field_path_element
  repeated_field recur message field =
      each
        (λ i.
          sub_message recur (record (field_path_element lib field) { subscript = at_index i })
            (lib.get_repeated_message message field i))
        (indices (lib.field_size message field))

  -- a round of the loop over the fields
  unfoldable pub validate_sub_field :
      (Message → M Status) → Message → FieldDescriptor → M (Option Status)
  unfolding is_skipped map_field repeated_field sub_message field_path_element
  validate_sub_field recur message field =
      if not (is_message (lib.cpp_type field)) || is_skipped field
      then pure none
      else if lib.is_map field
      then map_field recur message field
      else if lib.is_repeated field
      then repeated_field recur message field
      else sub_message recur (field_path_element lib field) (lib.get_message message field)

  -- `ValidateFields`, by what validates a message
  unfoldable pub validate_fields : (Message → M Status) → Message → M Status
  unfolding validate_sub_field for_each
  validate_fields recur message =
      for_each (validate_sub_field recur message) (lib.list_fields message)

  -- a round of the loop over the rules
  unfoldable pub rule_round : Message → ValidationRules → M (Option Status)
  unfolding validate return_or_go_on
  rule_round message rules = validate lib rules message >>= return_or_go_on

  -- `ValidateMessage`
  unfoldable pub validate_message : Status → ℕ → Message → M Status
  unfolding rule_round each validate_fields
  validate_message exhausted zero message = pure exhausted
  validate_message exhausted (suc fuel) message =
      let recur = validate_message exhausted fuel in
      elim (get_message_rules (lib.descriptor_of message)) [
        | none ↦ pure (
            error not_found (
              codes "rules not loaded for message: "
              ++ lib.descriptor_name (lib.descriptor_of message)))
        | some (failure code text) ↦ pure (error code text)
        | some (value rules) ↦ do
          answer ← each (rule_round message) rules
          elim answer [ none ↦ validate_fields recur message | some status ↦ pure status ]
      ]
