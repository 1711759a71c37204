-- ===== src/Rules/Lockstep/Map.antt =====
-- The rules of a map field with `failFast` set in two ways.
use protovalidate_cc.Base.{ℕ, not, ◌||◌, Option, none, some, List, [], ◌∷◌, if◌then◌else◌, codes}
use protovalidate_cc.Proto.{
  Libraries, Message, FieldDescriptor, Status, ok, error, is_ok, StatusOr, value, failure, CelValue,
  Activation, map_keys, map_values,
}
use protovalidate_cc.Rules.Cel.{validate_cel}
use protovalidate_cc.Rules.Context.Monad.{M, pure, ◌>>=◌, ◌>>◌, size, fails_fast, modify, counting}
use protovalidate_cc.Rules.Context.{
  RuleContext, append_field_path_element, append_rule_path_element, set_field_value, set_for_key,
  with_for_key,
}
use protovalidate_cc.Rules.Field.{FieldValidationRules, validate_field}
use protovalidate_cc.Rules.Lockstep.Cel.{validate_cel-IsLockstep}
use protovalidate_cc.Rules.Lockstep.Containers.{three-IsReflecting}
use protovalidate_cc.Rules.Lockstep.Field.{
  append_field-IsReflecting, append_rule-IsReflecting, set_field-IsReflecting, bind-IsReflecting,
  validate_field-IsLockstep,
}
use protovalidate_cc.Rules.Lockstep.{
  IsLockstep, IsReflecting, pure-IsLockstep, bind-IsLockstep, size-IsLockstep, if-IsLockstep,
  option-IsLockstep, grown-IsLockstep, update_from-reflects-empty,
}
use protovalidate_cc.Rules.Map.{
  Entry, map_rule_elements, tag_key, tag_value, validate_part, tag_entry, entry_round, entry_loop,
  empty_activation, field_or_null, validate_entries, validate_map,
}
use protovalidate_cc.Rules.Path.Print.{FieldPathElement}
use protovalidate_cc.Rules.Path.{field_path_element, set_path_element_map_key}
use protovalidate_cc.Rules.Repeated.{is_empty_item}

for_key-IsReflecting : (pos : ℕ) → IsReflecting (modify (set_for_key pos))
unfolding set_for_key
for_key-IsReflecting pos ctx = update_from-reflects-empty pos with_for_key ctx.violations

module _ (lib : Libraries) where
  tag_key-IsLockstep : (entry : Entry) (pos : ℕ) → IsLockstep (tag_key lib entry pos)
  unfolding tag_key
  tag_key-IsLockstep entry pos =
      grown-IsLockstep pos (modify rule >> (modify item >> modify (set_for_key pos))) (pure tt)
        (three-IsReflecting rule item (set_for_key pos)
          (append_rule-IsReflecting (map_rule_elements lib map_keys) pos)
          (set_field-IsReflecting
            (record { message = entry.message; descriptor = entry.key_field; index = none }) pos)
          (for_key-IsReflecting pos))
        (pure-IsLockstep tt)
    where
      rule : RuleContext → RuleContext
      rule = append_rule_path_element (map_rule_elements lib map_keys) pos

      item : RuleContext → RuleContext
      item =
          set_field_value
            (record { message = entry.message; descriptor = entry.key_field; index = none }) pos

  tag_value-IsLockstep :
      (entry : Entry) (pos value_pos : ℕ) → IsLockstep (tag_value lib entry pos value_pos)
  unfolding tag_value
  tag_value-IsLockstep entry pos value_pos =
      grown-IsLockstep value_pos (modify rule >> modify item) (pure tt)
        (bind-IsReflecting (modify rule) (λ _. modify item)
          (append_rule-IsReflecting (map_rule_elements lib map_values) value_pos)
          (λ _.
            set_field-IsReflecting
              (record { message = entry.message; descriptor = entry.value_field; index = none })
              pos))
        (pure-IsLockstep tt)
    where
      rule : RuleContext → RuleContext
      rule = append_rule_path_element (map_rule_elements lib map_values) value_pos

      item : RuleContext → RuleContext
      item =
          set_field_value
            (record { message = entry.message; descriptor = entry.value_field; index = none }) pos

  -- the end of a part
  abbrev end_part : (ℕ → M (Unit {0})) → ℕ → Status × Activation → M (Status × Activation)
  end_part tag start answer =
      if is_ok answer.0
      then tag start >> pure (answer.0, record answer.1 { this = none })
      else pure (answer.0, answer.1)

  end_part-IsLockstep :
      (tag : ℕ → M (Unit {0})) (start : ℕ) (answer : Status × Activation)
      → ((pos : ℕ) → IsLockstep (tag pos))
      → IsLockstep (end_part tag start answer)
  end_part-IsLockstep tag start answer h =
      if-IsLockstep (is_ok answer.0) (tag start >> pure (answer.0, record answer.1 { this = none }))
        (pure (answer.0, answer.1))
        (bind-IsLockstep (tag start) (λ _. pure (answer.0, record answer.1 { this = none }))
          (h start) (λ _. pure-IsLockstep (answer.0, record answer.1 { this = none })))
        (pure-IsLockstep (answer.0, answer.1))

  validate_part-IsLockstep :
      (rules : Option FieldValidationRules) (item : CelValue) (tag : ℕ → M (Unit {0}))
      (activation : Activation)
      → ((pos : ℕ) → IsLockstep (tag pos))
      → IsLockstep (validate_part lib rules item tag activation)
  unfolding validate_part
  validate_part-IsLockstep none item tag activation h = pure-IsLockstep (ok, activation)
  validate_part-IsLockstep (some rules) item tag activation h =
      if-IsLockstep (not rules.ignore_empty || not (is_empty_item item))
        (size >>= λ start. run >>= end_part tag start) (pure (ok, activation))
        (bind-IsLockstep size (λ start. run >>= end_part tag start) size-IsLockstep
          λ start.
            bind-IsLockstep run (end_part tag start)
              (validate_cel-IsLockstep lib rules.cel
                (record activation { this = lib.insert_value activation.this item }))
              (λ answer. end_part-IsLockstep tag start answer h))
        (pure-IsLockstep (ok, activation))
    where
      run : M (Status × Activation)
      run =
          validate_cel lib rules.cel
            (record activation { this = lib.insert_value activation.this item })

  -- what the entry's tag does where the context grew
  abbrev put_element : ℕ → StatusOr FieldPathElement → M (Option Status)
  put_element pos found = elim found [
    | failure code message ↦ pure (some (error code message))
    | value element ↦
        modify (append_field_path_element element pos)
        >> (fails_fast >>= λ fast. pure (if fast then some ok else none))
  ]

  put_element-IsReflecting :
      (pos : ℕ) (found : StatusOr FieldPathElement) → IsReflecting (put_element pos found)
  put_element-IsReflecting pos (failure code message) ctx e = e
  put_element-IsReflecting pos (value element) ctx e = append_field-IsReflecting element pos ctx e

  tag_entry-IsLockstep :
      (field : FieldDescriptor) (entry : Entry) (pos : ℕ)
      → IsLockstep (tag_entry lib field entry pos)
  unfolding tag_entry
  tag_entry-IsLockstep field entry pos =
      grown-IsLockstep pos (put_element pos found) (pure none) (put_element-IsReflecting pos found)
        (pure-IsLockstep none)
    where
      found : StatusOr FieldPathElement
      found =
          set_path_element_map_key lib (field_path_element lib field) entry.message entry.key_field
            entry.value_field

  entry_round-IsLockstep :
      (field : FieldDescriptor) (key_rules value_rules : Option FieldValidationRules)
      (entry : Entry) (key item : CelValue) (activation : Activation)
      → IsLockstep (entry_round lib field key_rules value_rules entry key item activation)
  unfolding entry_round
  entry_round-IsLockstep field key_rules value_rules entry key item activation =
      bind-IsLockstep size (λ pos. keys pos >>= after_key pos) size-IsLockstep
        λ pos.
          bind-IsLockstep (keys pos) (after_key pos)
            (validate_part-IsLockstep key_rules key (tag_key lib entry) activation
              (tag_key-IsLockstep entry))
            λ k.
              if-IsLockstep (is_ok k.0) (values pos k >>= after_value pos) (pure (some k.0, k.1))
                (bind-IsLockstep (values pos k) (after_value pos)
                  (validate_part-IsLockstep value_rules item (tag_value lib entry pos) k.1
                    (tag_value-IsLockstep entry pos))
                  λ v.
                    if-IsLockstep (is_ok v.0) (last pos v) (pure (some v.0, v.1))
                      (bind-IsLockstep (tag_entry lib field entry pos)
                        (λ answer. pure (answer, v.1)) (tag_entry-IsLockstep field entry pos)
                        (λ answer. pure-IsLockstep (answer, v.1)))
                      (pure-IsLockstep (some v.0, v.1)))
                (pure-IsLockstep (some k.0, k.1))
    where
      keys : ℕ → M (Status × Activation)
      keys pos = validate_part lib key_rules key (tag_key lib entry) activation

      values : ℕ → Status × Activation → M (Status × Activation)
      values pos k = validate_part lib value_rules item (tag_value lib entry pos) k.1

      last : ℕ → Status × Activation → M (Option Status × Activation)
      last pos v = tag_entry lib field entry pos >>= λ answer. pure (answer, v.1)

      after_value : ℕ → Status × Activation → M (Option Status × Activation)
      after_value pos v = if is_ok v.0 then last pos v else pure (some v.0, v.1)

      after_key : ℕ → Status × Activation → M (Option Status × Activation)
      after_key pos k = if is_ok k.0 then values pos k >>= after_value pos else pure (some k.0, k.1)

  entry_loop-IsLockstep :
      (round : ℕ → Activation → M (Option Status × Activation)) (is : List ℕ)
      (activation : Activation)
      → ((i : ℕ) (a : Activation) → IsLockstep (round i a))
      → IsLockstep (entry_loop lib round is activation)
  unfolding entry_loop
  entry_loop-IsLockstep round [] activation h = pure-IsLockstep ok
  entry_loop-IsLockstep round (i ∷ is) activation h =
      bind-IsLockstep (round i activation)
        (λ answer ctx. elim answer.0 [
          | none ↦ entry_loop lib round is answer.1 ctx
          | some status ↦ (status, ctx)
        ])
        (h i activation)
        (λ answer.
          option-IsLockstep answer.0 (entry_loop lib round is answer.1) pure
            (entry_loop-IsLockstep round is answer.1 h) pure-IsLockstep)

  validate_entries-IsLockstep :
      (r : FieldValidationRules) (key_rules value_rules : Option FieldValidationRules)
      (message : Message)
      → IsLockstep (validate_entries lib r key_rules value_rules message)
  unfolding validate_entries
  validate_entries-IsLockstep r key_rules value_rules message = go (lib.list_keys message r.field)
    where
      round : (ℕ → CelValue) → ℕ → Activation → M (Option Status × Activation)
      round keys i =
          entry_round lib r.field key_rules value_rules
            (record {
              message = lib.get_repeated_message message r.field i;
              key_field =
                  field_or_null lib (lib.field_by_name (lib.message_type r.field) (codes "key"));
              value_field =
                  field_or_null lib (lib.field_by_name (lib.message_type r.field) (codes "value"));
            })
            (keys i) (lib.map_at message r.field (keys i))

      go :
          (found : StatusOr (ℕ → CelValue))
          → IsLockstep {A = Status} (elim found [
            | failure code text ↦ pure (error code text)
            | value keys ↦
                entry_loop lib
                  (round keys)
                  (counting (lib.map_size message r.field) 0)
                  (empty_activation lib)
          ])
      go (failure code text) = pure-IsLockstep (error code text)
      go (value keys) =
          entry_loop-IsLockstep (round keys) (counting (lib.map_size message r.field) 0)
            (empty_activation lib)
            λ i activation.
              entry_round-IsLockstep r.field key_rules value_rules
                (record {
                  message = lib.get_repeated_message message r.field i;
                  key_field =
                      field_or_null lib
                        (lib.field_by_name (lib.message_type r.field) (codes "key"));
                  value_field =
                      field_or_null lib
                        (lib.field_by_name (lib.message_type r.field) (codes "value"));
                })
                (keys i) (lib.map_at message r.field (keys i)) activation

  -- the rules of the field, and then those of the entries
  field_entries-IsLockstep :
      (r : FieldValidationRules) (key_rules value_rules : Option FieldValidationRules)
      (message : Message)
      → IsLockstep (
          validate_field lib r message >>= λ status.
          if is_ok status
          then validate_entries lib r key_rules value_rules message
          else pure status)
  field_entries-IsLockstep r key_rules value_rules message =
      bind-IsLockstep (validate_field lib r message)
        (λ status.
          if is_ok status
          then validate_entries lib r key_rules value_rules message
          else pure status)
        (validate_field-IsLockstep lib r message)
        λ status.
          if-IsLockstep (is_ok status) (validate_entries lib r key_rules value_rules message)
            (pure status) (validate_entries-IsLockstep r key_rules value_rules message)
            (pure-IsLockstep status)

  pub validate_map-IsLockstep :
      (r : FieldValidationRules) (key_rules value_rules : Option FieldValidationRules)
      (message : Message)
      → IsLockstep (validate_map lib r key_rules value_rules message)
  unfolding validate_map
  validate_map-IsLockstep r none none message = validate_field-IsLockstep lib r message
  validate_map-IsLockstep r none (some v) message = field_entries-IsLockstep r none (some v) message
  validate_map-IsLockstep r (some k) none message = field_entries-IsLockstep r (some k) none message
  validate_map-IsLockstep r (some k) (some v) message =
      field_entries-IsLockstep r (some k) (some v) message
