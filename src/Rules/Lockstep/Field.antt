-- ===== src/Rules/Lockstep/Field.antt =====
-- The rules of a field and of a repeated field with `failFast` set in two ways.
use protovalidate_cc.Base.{ℕ, Bool, not, ◌&&◌, none, List, ◌==◌, ltb, if◌then◌else◌}
use protovalidate_cc.Proto.{
  Libraries, Message, Status, ok, error, is_ok, StatusOr, value, failure, CelValue, Activation,
}
use protovalidate_cc.Rules.Cel.{validate_cel}
use protovalidate_cc.Rules.Context.Monad.{M, pure, ◌>>=◌, ◌>>◌, size, returns, emplace_back, modify}
use protovalidate_cc.Rules.Context.{
  ProtoField, append_field_path_element, append_rule_path_element, set_field_value,
  with_field_element, with_rule_elements, with_field_value,
}
use protovalidate_cc.Rules.Field.Any.{AnyRules}
use protovalidate_cc.Rules.Field.{
  FieldValidationRules, this_is, is_message, required_violation, validate_value,
  validate_collection, validate_present, validate_single_any, validate_single, validate_field,
  defined_only_violation, check_defined, validate_enum,
}
use protovalidate_cc.Rules.Lockstep.Cel.{
  emplace_back-ok-IsLockstep, validate_cel-IsLockstep, validate_any-IsLockstep,
}
use protovalidate_cc.Rules.Lockstep.{
  IsLockstep, IsReflecting, pure-IsLockstep, bind-IsLockstep, size-IsLockstep, returns-IsLockstep,
  if-IsLockstep, either-IsLockstep, grown-IsLockstep, update_from-reflects-empty,
}
use protovalidate_cc.Rules.Path.{field_path_element}
use protovalidate_cc.Rules.Path.Print.{FieldPathElement}

pub append_field-IsReflecting :
    (e : FieldPathElement) (pos : ℕ) → IsReflecting (modify (append_field_path_element e pos))
unfolding append_field_path_element
append_field-IsReflecting e pos ctx =
    update_from-reflects-empty pos (with_field_element e) ctx.violations

pub append_rule-IsReflecting :
    (es : List FieldPathElement) (pos : ℕ) → IsReflecting (modify (append_rule_path_element es pos))
unfolding append_rule_path_element
append_rule-IsReflecting es pos ctx =
    update_from-reflects-empty pos (with_rule_elements es) ctx.violations

pub set_field-IsReflecting :
    (f : ProtoField) (pos : ℕ) → IsReflecting (modify (set_field_value f pos))
unfolding set_field_value
set_field-IsReflecting f pos ctx =
    update_from-reflects-empty pos (with_field_value f) ctx.violations

pub bind-IsReflecting {ℓ κ} :
    {A : Type ℓ} {B : Type κ} (m : M A) (f : A → M B)
    → IsReflecting m
    → ((a : A) → IsReflecting (f a))
    → IsReflecting (m >>= f)
bind-IsReflecting m f hm hf ctx e = hm ctx (hf (m ctx).0 (m ctx).1 e)

module _ (lib : Libraries) where
  -- the tags of the violations of a value
  abbrev tag_value : FieldValidationRules → Message → ℕ → Status → M Status
  tag_value r message pos status =
      modify (append_field_path_element (field_path_element lib r.field) pos) >>= λ _.
      modify
        (set_field_value (record { message = message; descriptor = r.field; index = none }) pos)
      >>= λ _. pure status

  tag_value-IsReflecting :
      (r : FieldValidationRules) (message : Message) (pos : ℕ) (status : Status)
      → IsReflecting (tag_value r message pos status)
  tag_value-IsReflecting r message pos status ctx e =
      append_field-IsReflecting (field_path_element lib r.field) pos ctx (
        set_field-IsReflecting (record { message = message; descriptor = r.field; index = none })
          pos (append_field_path_element (field_path_element lib r.field) pos ctx) e)

  -- `if (!status.ok()) return status; if (grown) …`
  abbrev end_value : FieldValidationRules → Message → ℕ → Status → M Status
  end_value r message pos status = size >>= λ grown.
      if is_ok status && ltb pos grown then tag_value r message pos status else pure status

  end_value-IsLockstep :
      (r : FieldValidationRules) (message : Message) (pos : ℕ) (status : Status)
      → IsLockstep (end_value r message pos status)
  end_value-IsLockstep r message pos ok =
      grown-IsLockstep pos (tag_value r message pos ok) (pure ok)
        (tag_value-IsReflecting r message pos ok) (pure-IsLockstep ok)
  end_value-IsLockstep r message pos (error c m) =
      bind-IsLockstep size (λ _. pure (error c m)) size-IsLockstep
        (λ _. pure-IsLockstep (error c m))

  validate_value-IsLockstep :
      (r : FieldValidationRules) (message : Message) (result : CelValue)
      → IsLockstep (validate_value lib r message result)
  unfolding validate_value
  validate_value-IsLockstep r message result =
      bind-IsLockstep size (λ pos. run >>= λ answer. end_value r message pos answer.0)
        size-IsLockstep
        λ pos.
          bind-IsLockstep run (λ answer. end_value r message pos answer.0)
            (validate_cel-IsLockstep lib r.cel (this_is lib result))
            (λ answer. end_value-IsLockstep r message pos answer.0)
    where
      run : M (Status × Activation)
      run = validate_cel lib r.cel (this_is lib result)

  validate_collection-IsLockstep :
      (r : FieldValidationRules) (message : Message) (entries : ℕ) (result : CelValue)
      → IsLockstep (validate_collection lib r message entries result)
  unfolding validate_collection
  validate_collection-IsLockstep r message entries result =
      if-IsLockstep (entries == 0 && r.ignore_empty) (pure ok) _ (pure-IsLockstep ok) (
        if-IsLockstep (entries == 0 && r.required)
          (emplace_back (required_violation lib r message) >> pure ok)
          (validate_value lib r message result)
          (emplace_back-ok-IsLockstep (required_violation lib r message))
          (validate_value-IsLockstep r message result))

  validate_present-IsLockstep :
      (r : FieldValidationRules) (message : Message) → IsLockstep (validate_present lib r message)
  unfolding validate_present
  validate_present-IsLockstep r message = go (lib.single_value message r.field)
    where
      go :
          (v : StatusOr CelValue)
          → IsLockstep {A = Status} (elim v [
            | failure code text ↦ pure (error code text)
            | value result ↦ validate_value lib r message result
          ])
      go (failure code text) = pure-IsLockstep (error code text)
      go (value result) = validate_value-IsLockstep r message result

  validate_single_any-IsLockstep :
      (r : FieldValidationRules) (message : Message) (any : AnyRules)
      → IsLockstep (validate_single_any lib r message any)
  unfolding validate_single_any
  validate_single_any-IsLockstep r message any =
      validate_any-IsLockstep lib any r.field_rules
        (record { message = message; descriptor = r.field; index = none })
        (lib.get_message message r.field)

  abbrev with_any : FieldValidationRules → Message → AnyRules → M Status
  with_any r message any = validate_single_any lib r message any >>= λ status.
      if is_ok status then validate_present lib r message else pure status

  with_any-IsLockstep :
      (r : FieldValidationRules) (message : Message) (any : AnyRules)
      → IsLockstep (with_any r message any)
  with_any-IsLockstep r message any =
      bind-IsLockstep (validate_single_any lib r message any)
        (λ status. if is_ok status then validate_present lib r message else pure status)
        (validate_single_any-IsLockstep r message any)
        (λ status.
          if-IsLockstep (is_ok status) (validate_present lib r message) (pure status)
            (validate_present-IsLockstep r message) (pure-IsLockstep status))

  validate_single-IsLockstep :
      (r : FieldValidationRules) (message : Message) → IsLockstep (validate_single lib r message)
  unfolding validate_single
  validate_single-IsLockstep r message =
      if-IsLockstep (not (lib.has_field message r.field) && r.required)
        (emplace_back (required_violation lib r message) >> pure ok) _
        (emplace_back-ok-IsLockstep (required_violation lib r message))
        (if-IsLockstep (not (lib.has_field message r.field) && r.ignore_empty) (pure ok) _
          (pure-IsLockstep ok)
          (either-IsLockstep r.any_rules (validate_present lib r message)
            (λ any.
              if is_message (lib.cpp_type r.field)
              then with_any r message any
              else validate_present lib r message)
            (validate_present-IsLockstep r message)
            (λ any.
              if-IsLockstep (is_message (lib.cpp_type r.field)) (with_any r message any)
                (validate_present lib r message) (with_any-IsLockstep r message any)
                (validate_present-IsLockstep r message))))

  pub validate_field-IsLockstep :
      (r : FieldValidationRules) (message : Message) → IsLockstep (validate_field lib r message)
  unfolding validate_field
  validate_field-IsLockstep r message =
      if-IsLockstep (lib.is_map r.field) _ _
        (validate_collection-IsLockstep r message (lib.map_size message r.field)
          (lib.map_value message r.field))
        (if-IsLockstep (lib.is_repeated r.field) _ _
          (validate_collection-IsLockstep r message (lib.list_size message r.field)
            (lib.list_value message r.field))
          (validate_single-IsLockstep r message))

  check_defined-IsLockstep :
      (r : FieldValidationRules) (defined_only : Bool) (message : Message)
      → IsLockstep (check_defined lib r defined_only message)
  unfolding check_defined
  check_defined-IsLockstep r defined_only message =
      if-IsLockstep
        (defined_only && not (lib.enum_has_value r.field (lib.get_enum_value message r.field)))
        (emplace_back (defined_only_violation lib r message) >> pure ok) (pure ok)
        (emplace_back-ok-IsLockstep (defined_only_violation lib r message)) (pure-IsLockstep ok)

  -- `if (ctx.shouldReturn(status)) { return status; }`, and what follows
  pub unless_returns-IsLockstep :
      (m k : M Status)
      → IsLockstep m
      → IsLockstep k
      → IsLockstep (m >>= λ status. returns status >>= λ stop. if stop then pure status else k)
  unless_returns-IsLockstep m k hm hk =
      bind-IsLockstep m (λ status. returns status >>= λ stop. if stop then pure status else k) hm
        λ status.
          bind-IsLockstep (returns status) (λ stop. if stop then pure status else k)
            (returns-IsLockstep status)
            λ stop. if-IsLockstep stop (pure status) k (pure-IsLockstep status) hk

  pub validate_enum-IsLockstep :
      (r : FieldValidationRules) (defined_only : Bool) (message : Message)
      → IsLockstep (validate_enum lib r defined_only message)
  unfolding validate_enum
  validate_enum-IsLockstep r defined_only message =
      unless_returns-IsLockstep (validate_field lib r message)
        (check_defined lib r defined_only message) (validate_field-IsLockstep r message)
        (check_defined-IsLockstep r defined_only message)
