-- ===== src/Rules/Lockstep/Containers.antt =====
-- The rules of a repeated field with `failFast` set in two ways.
use protovalidate_cc.Base.{ℕ, Bool, ◌&&◌, Option, none, some, List, [], ◌∷◌, if◌then◌else◌}
use protovalidate_cc.Proto.{
  Libraries, Message, Status, CelValue, Activation, repeated_items, field_repeated,
}
use protovalidate_cc.Rules.Cel.{validate_cel}
use protovalidate_cc.Rules.Context.Monad.{
  M, pure, ◌>>=◌, ◌>>◌, size, returns, modify, for_each, return_or_go_on, indices,
}
use protovalidate_cc.Rules.Context.{
  RuleContext, append_field_path_element, append_rule_path_element, set_field_value,
}
use protovalidate_cc.Rules.Field.Any.{AnyRules, validate_any}
use protovalidate_cc.Rules.Field.{FieldValidationRules, this_is, validate_field}
use protovalidate_cc.Rules.Lockstep.Cel.{validate_cel-IsLockstep, validate_any-IsLockstep}
use protovalidate_cc.Rules.Lockstep.Field.{
  append_field-IsReflecting, append_rule-IsReflecting, set_field-IsReflecting,
  validate_field-IsLockstep,
}
use protovalidate_cc.Rules.Lockstep.{
  IsLockstep, IsReflecting, pure-IsLockstep, bind-IsLockstep, size-IsLockstep, returns-IsLockstep,
  if-IsLockstep, either-IsLockstep, grown-IsLockstep, for_each-IsLockstep,
  return_or_go_on-IsLockstep,
}
use protovalidate_cc.Rules.Path.Print.{FieldPathElement}
use protovalidate_cc.Rules.Path.{field_path_element}
use protovalidate_cc.Rules.Repeated.{
  is_empty_item, indexed_element, item_status, tag_item, validate_item, item_round,
  validate_repeated,
}

-- three changes of the violations, one behind the other
pub three-IsReflecting :
    (f g h : RuleContext → RuleContext)
    → IsReflecting (modify f)
    → IsReflecting (modify g)
    → IsReflecting (modify h)
    → IsReflecting (modify f >> (modify g >> modify h))
three-IsReflecting f g h hf hg hh ctx e = hf ctx (hg (f ctx) (hh (g (f ctx)) e))

module _ (lib : Libraries) where
  tag_item-IsLockstep :
      (r : FieldValidationRules) (message : Message) (i pos : ℕ)
      → IsLockstep (tag_item lib r message i pos)
  unfolding tag_item
  tag_item-IsLockstep r message i pos =
      grown-IsLockstep pos (modify field >> (modify rule >> modify item)) (pure tt)
        (three-IsReflecting field rule item
          (append_field-IsReflecting (indexed_element lib r i) pos)
          (append_rule-IsReflecting rule_elements pos)
          (set_field-IsReflecting
            (record { message = message; descriptor = r.field; index = some i }) pos))
        (pure-IsLockstep tt)
    where
      rule_elements : List FieldPathElement
      rule_elements =
          field_path_element lib (lib.rule_field repeated_items)
          ∷ field_path_element lib (lib.rule_field field_repeated)
          ∷ []

      field : RuleContext → RuleContext
      field = append_field_path_element (indexed_element lib r i) pos

      rule : RuleContext → RuleContext
      rule = append_rule_path_element rule_elements pos

      item : RuleContext → RuleContext
      item =
          set_field_value (record { message = message; descriptor = r.field; index = some i }) pos

  item_status-IsLockstep :
      (r items : FieldValidationRules) (message : Message) (i : ℕ) (item : CelValue)
      → IsLockstep (item_status lib r items message i item)
  unfolding item_status
  item_status-IsLockstep r items message i item =
      bind-IsLockstep (validate_cel lib items.cel (this_is lib item)) last
        (validate_cel-IsLockstep lib items.cel (this_is lib item))
        λ answer.
          either-IsLockstep items.any_rules (pure answer.0) any_part (pure-IsLockstep answer.0)
            (λ any.
              validate_any-IsLockstep lib any items.field_rules
                (record { message = message; descriptor = r.field; index = some i })
                (lib.get_repeated_message message r.field i))
    where
      any_part : AnyRules → M Status
      any_part any =
          validate_any lib any items.field_rules
            (record { message = message; descriptor = r.field; index = some i })
            (lib.get_repeated_message message r.field i)

      last : Status × Activation → M Status
      last answer = elim items.any_rules [ none ↦ pure answer.0 | some any ↦ any_part any ]

  validate_item-IsLockstep :
      (r items : FieldValidationRules) (message : Message) (i : ℕ) (item : CelValue)
      → IsLockstep (validate_item lib r items message i item)
  unfolding validate_item
  validate_item-IsLockstep r items message i item =
      bind-IsLockstep size (λ pos. status >>= end pos) size-IsLockstep
        λ pos. bind-IsLockstep status (end pos) (item_status-IsLockstep r items message i item) λ s.
          bind-IsLockstep (tag_item lib r message i pos) (λ _. return_or_go_on s)
            (tag_item-IsLockstep r message i pos) (λ _. return_or_go_on-IsLockstep s)
    where
      status : M Status
      status = item_status lib r items message i item

      end : ℕ → Status → M (Option Status)
      end pos s = tag_item lib r message i pos >>= λ _. return_or_go_on s

  item_round-IsLockstep :
      (r items : FieldValidationRules) (message : Message) (i : ℕ)
      → IsLockstep (item_round lib r items message i)
  unfolding item_round
  item_round-IsLockstep r items message i =
      if-IsLockstep (items.ignore_empty && is_empty_item (lib.list_item message r.field i))
        (pure none) (validate_item lib r items message i (lib.list_item message r.field i))
        (pure-IsLockstep none)
        (validate_item-IsLockstep r items message i (lib.list_item message r.field i))

  pub validate_repeated-IsLockstep :
      (r : FieldValidationRules) (items : Option FieldValidationRules) (message : Message)
      → IsLockstep (validate_repeated lib r items message)
  unfolding validate_repeated
  validate_repeated-IsLockstep r items message =
      bind-IsLockstep (validate_field lib r message) (λ status. returns status >>= rest status)
        (validate_field-IsLockstep lib r message)
        λ status. bind-IsLockstep (returns status) (rest status) (returns-IsLockstep status) λ stop.
          if-IsLockstep stop (pure status) (loops status) (pure-IsLockstep status) (
            either-IsLockstep items (pure status) loop (pure-IsLockstep status) λ item_rules.
              for_each-IsLockstep (item_round lib r item_rules message)
                (indices (lib.list_size message r.field))
                (item_round-IsLockstep r item_rules message))
    where
      loop : FieldValidationRules → M Status
      loop item_rules =
          for_each (item_round lib r item_rules message) (indices (lib.list_size message r.field))

      loops : Status → M Status
      loops status = elim items [ none ↦ pure status | some item_rules ↦ loop item_rules ]

      rest : Status → Bool → M Status
      rest status stop = if stop then pure status else loops status
