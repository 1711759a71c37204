-- ===== src/Rules/Repeated.antt =====
-- RepeatedValidationRules and `isEmptyItem` of buf/validate/internal/rules.cc.
pub mod AnyStatus
use protovalidate_cc.Base.{
  ℕ, ◌^◌, Bool, true, false, not, ◌&&◌, ◌||◌, Option, none, some, List, [], ◌∷◌, ◌==◌, ltb,
  if◌then◌else◌,
}
use protovalidate_cc.Proto.{
  Libraries, Message, RuleField, repeated_items, field_repeated, Status, ok, CelValue, cel_null,
  cel_bool, cel_int, cel_uint, cel_double, cel_string, cel_bytes,
}
use protovalidate_cc.Rules.Cel.{validate_cel}
use protovalidate_cc.Rules.Context.Monad.{
  M, pure, ◌>>=◌, ◌>>◌, size, returns, modify, for_each, return_or_go_on, counting, indices,
}
use protovalidate_cc.Rules.Context.{
  ProtoField, append_field_path_element, append_rule_path_element, set_field_value, is_empty,
  should_return,
}
use protovalidate_cc.Rules.Field.{FieldValidationRules, validate_field, this_is}
use protovalidate_cc.Rules.Field.Any.{AnyRules, validate_any}
use protovalidate_cc.Rules.Path.Print.{FieldPathElement, Subscript, at_index}
use protovalidate_cc.Rules.Path.{field_path_element}

-- a double is zero with either sign
unfoldable pub is_empty_item : CelValue → Bool
is_empty_item (cel_bool b) = not b
is_empty_item (cel_int n) = n == 0
is_empty_item (cel_uint n) = n == 0
is_empty_item (cel_double bits) = bits == 0 || bits == 2 ^ 63
is_empty_item (cel_string s) = is_empty s
is_empty_item (cel_bytes s) = is_empty s
is_empty_item _ = false

module _ (lib : Libraries) where
  unfoldable pub indexed_element : FieldValidationRules → ℕ → FieldPathElement
  unfolding field_path_element
  indexed_element r i = record (field_path_element lib r.field) { subscript = at_index i }

  -- the status of `ValidateAny` takes the place of `ValidateCel`'s
  unfoldable pub item_status :
      FieldValidationRules → FieldValidationRules → Message → ℕ → CelValue → M Status
  unfolding validate_cel validate_any
  item_status r items message i item = do
    (status, _) ← validate_cel lib items.cel (this_is lib item)
    elim items.any_rules [
      | none ↦ pure status
      | some any ↦
          validate_any lib any items.field_rules
            (record { message = message; descriptor = r.field; index = some i })
            (lib.get_repeated_message message r.field i)
    ]

  -- `if (ctx.violations.size() > pos) { … }`
  unfoldable pub tag_item : FieldValidationRules → Message → ℕ → ℕ → M (Unit {0})
  unfolding indexed_element append_field_path_element append_rule_path_element set_field_value
      field_path_element
  tag_item r message i pos = do
    grown ← size
    if ltb pos grown
        then (do
          modify (append_field_path_element (indexed_element r i) pos)
          modify (
              append_rule_path_element
                (field_path_element lib (lib.rule_field repeated_items)
                  ∷ field_path_element lib (lib.rule_field field_repeated)
                  ∷ [])
                pos)
          modify (
              set_field_value (record { message = message; descriptor = r.field; index = some i })
                pos))
        else pure tt

  unfoldable pub validate_item :
      FieldValidationRules → FieldValidationRules → Message → ℕ → CelValue → M (Option Status)
  unfolding item_status tag_item return_or_go_on
  validate_item r items message i item = do
    pos ← size
    status ← item_status r items message i item
    tag_item r message i pos
    return_or_go_on status

  -- a round of the loop over the items
  unfoldable pub item_round :
      FieldValidationRules → FieldValidationRules → Message → ℕ → M (Option Status)
  unfolding validate_item is_empty_item
  item_round r items message i =
      let item = lib.list_item message r.field i in
      if items.ignore_empty && is_empty_item item
      then pure none
      else validate_item r items message i item

  -- `RepeatedValidationRules::Validate`
  unfoldable pub validate_repeated :
      FieldValidationRules → Option FieldValidationRules → Message → M Status
  unfolding validate_field item_round for_each counting
  validate_repeated r item_rules message = do
    status ← validate_field lib r message
    stop ← returns status
    if stop then pure status else elim item_rules [
      | none ↦ pure status
      | some items ↦ for_each (item_round r items message) (indices (lib.list_size message r.field))
    ]
