-- ===== src/Rules/Repeated/AnyStatus.antt =====
-- The status of an item with AnyRules: RepeatedValidationRules of buf/validate/internal/rules.cc.
use protovalidate_cc.Base.{ℕ, ◌≡◌, refl, some}
use protovalidate_cc.Proto.{Libraries, Message, FieldDescriptor, ok, CelValue}
use protovalidate_cc.Rules.Cel.{validate_cel}
use protovalidate_cc.Rules.Context.{RuleContext, ProtoField}
use protovalidate_cc.Rules.Field.Any.{AnyRules, type_url_field, validate_any}
use protovalidate_cc.Rules.Field.{FieldValidationRules, this_is}
use protovalidate_cc.Rules.Repeated.{item_status}

module _ (lib : Libraries) where
  validate_any-ok :
      (any : AnyRules) (field_rules : Message) (field : ProtoField) (any_message : Message)
      (url : FieldDescriptor) (ctx : RuleContext)
      → type_url_field lib any_message ≡ some url
      → (validate_any lib any field_rules field any_message ctx).0 ≡ ok
  unfolding validate_any
  validate_any-ok any field_rules field any_message url ctx e = rw (e, validate_any) refl

  -- An item of a repeated field with AnyRules, whose type_url is a string, has the status OK,
  -- whatever status `ValidateCel` gave for it.
  pub item_status-validate_cel :
      (r items : FieldValidationRules) (message : Message) (i : ℕ) (item : CelValue)
      (any : AnyRules) (url : FieldDescriptor) (ctx : RuleContext)
      → items.any_rules ≡ some any
      → type_url_field lib (lib.get_repeated_message message r.field i) ≡ some url
      → (item_status lib r items message i item ctx).0 ≡ ok
  unfolding item_status
  item_status-validate_cel r items message i item any url ctx e e' = rw e (
      validate_any-ok any items.field_rules
        (record { message = message; descriptor = r.field; index = some i })
        (lib.get_repeated_message message r.field i) url
        (validate_cel lib items.cel (this_is lib item) ctx).1 e')
