-- ===== src/Validator/Lockstep.antt =====
-- A validation with `failFast` set in two ways: Validator of buf/validate/validator.cc.
use protovalidate_cc.Base.{
  ℕ, zero, suc, true, not, ◌||◌, Option, none, some, ◌++◌, if◌then◌else◌, codes,
}
use protovalidate_cc.Proto.{
  Libraries, Message, Descriptor, FieldDescriptor, Status, error, StatusOr, value, failure,
  not_found, internal,
}
use protovalidate_cc.Rules.Context.Monad.{
  M, pure, ◌>>=◌, ◌>>◌, size, modify, each, return_or_go_on, indices,
}
use protovalidate_cc.Rules.Context.{append_field_path_element}
use protovalidate_cc.Rules.Field.{is_message}
use protovalidate_cc.Rules.Kinds.{ValidationRules, RulesOr, validate}
use protovalidate_cc.Rules.Lockstep.Field.{append_field-IsReflecting}
use protovalidate_cc.Rules.Lockstep.Kinds.{validate-IsLockstep}
use protovalidate_cc.Rules.Lockstep.{
  IsLockstep, IsReflecting, pure-IsLockstep, bind-IsLockstep, size-IsLockstep, if-IsLockstep,
  either-IsLockstep, grown-IsLockstep, each-IsLockstep, for_each-IsLockstep,
  return_or_go_on-IsLockstep,
}
use protovalidate_cc.Rules.Options.{Schema}
use protovalidate_cc.Rules.Path.Print.{FieldPathElement, at_index}
use protovalidate_cc.Rules.Path.{field_path_element, set_path_element_map_key}
use protovalidate_cc.Validator.{
  is_skipped, tag_message, sub_message, tag_sub_entry, sub_entry, map_field, repeated_field,
  validate_sub_field, validate_fields, rule_round, validate_message,
}

module _ (lib : Libraries) (schema : Schema) (get_message_rules : Descriptor → Option RulesOr) where
  tag_message-IsLockstep :
      (element : FieldPathElement) (pos : ℕ)
      → IsLockstep (tag_message lib schema get_message_rules element pos)
  unfolding tag_message
  tag_message-IsLockstep element pos =
      grown-IsLockstep pos (modify (append_field_path_element element pos)) (pure tt)
        (append_field-IsReflecting element pos) (pure-IsLockstep tt)

  sub_message-IsLockstep :
      (recur : Message → M Status) (element : FieldPathElement) (message : Message)
      → ((m : Message) → IsLockstep (recur m))
      → IsLockstep (sub_message lib schema get_message_rules recur element message)
  unfolding sub_message
  sub_message-IsLockstep recur element message h =
      bind-IsLockstep size (λ pos. recur message >>= end pos) size-IsLockstep
        λ pos. bind-IsLockstep (recur message) (end pos) (h message) λ status.
          bind-IsLockstep (tag_message lib schema get_message_rules element pos)
            (λ _. return_or_go_on status) (tag_message-IsLockstep element pos)
            (λ _. return_or_go_on-IsLockstep status)
    where
      end : ℕ → Status → M (Option Status)
      end pos status =
          tag_message lib schema get_message_rules element pos >>= λ _. return_or_go_on status

  abbrev put_entry : ℕ → Status → StatusOr FieldPathElement → M (Option Status)
  put_entry pos status found = elim found [
    | failure code text ↦ pure (some (error code text))
    | value element ↦ modify (append_field_path_element element pos) >> return_or_go_on status
  ]

  return_or_go_on-IsReflecting : (status : Status) → IsReflecting (return_or_go_on status)
  return_or_go_on-IsReflecting status ctx e = (return_or_go_on-IsLockstep status ctx true e).0

  put_entry-IsReflecting :
      (pos : ℕ) (status : Status) (found : StatusOr FieldPathElement)
      → IsReflecting (put_entry pos status found)
  put_entry-IsReflecting pos status (failure code text) ctx e = e
  put_entry-IsReflecting pos status (value element) ctx e =
      append_field-IsReflecting element pos ctx
        (return_or_go_on-IsReflecting status (append_field_path_element element pos ctx) e)

  tag_sub_entry-IsLockstep :
      (field key_field value_field : FieldDescriptor) (entry : Message) (pos : ℕ) (status : Status)
      → IsLockstep
          (tag_sub_entry lib schema get_message_rules field key_field value_field entry pos status)
  unfolding tag_sub_entry
  tag_sub_entry-IsLockstep field key_field value_field entry pos status =
      grown-IsLockstep pos (put_entry pos status found) (return_or_go_on status)
        (put_entry-IsReflecting pos status found) (return_or_go_on-IsLockstep status)
    where
      found : StatusOr FieldPathElement
      found =
          set_path_element_map_key lib (field_path_element lib field) entry key_field value_field

  sub_entry-IsLockstep :
      (recur : Message → M Status) (field key_field value_field : FieldDescriptor)
      (message : Message) (i : ℕ)
      → ((m : Message) → IsLockstep (recur m))
      → IsLockstep
          (sub_entry lib schema get_message_rules recur field key_field value_field message i)
  unfolding sub_entry
  sub_entry-IsLockstep recur field key_field value_field message i h =
      bind-IsLockstep size (λ pos. recur inner >>= end pos) size-IsLockstep
        λ pos.
          bind-IsLockstep (recur inner) (end pos) (h inner)
            (tag_sub_entry-IsLockstep field key_field value_field entry pos)
    where
      entry : Message
      entry = lib.get_repeated_message message field i

      inner : Message
      inner = lib.get_message entry value_field

      end : ℕ → Status → M (Option Status)
      end pos status =
          tag_sub_entry lib schema get_message_rules field key_field value_field entry pos status

  map_field-IsLockstep :
      (recur : Message → M Status) (message : Message) (field : FieldDescriptor)
      → ((m : Message) → IsLockstep (recur m))
      → IsLockstep (map_field lib schema get_message_rules recur message field)
  unfolding map_field
  map_field-IsLockstep recur message field h =
      either-IsLockstep (lib.field_by_name (lib.message_type field) (codes "key")) missing
        (λ key_field. elim (lib.field_by_name (lib.message_type field) (codes "value")) [
          | none ↦ missing
          | some value_field ↦ entries key_field value_field
        ])
        (pure-IsLockstep answer)
        λ key_field.
          either-IsLockstep (lib.field_by_name (lib.message_type field) (codes "value")) missing
            (entries key_field) (pure-IsLockstep answer)
            λ value_field.
              if-IsLockstep (is_message (lib.cpp_type value_field)) (loop key_field value_field)
                (pure none)
                (each-IsLockstep
                  (sub_entry lib schema get_message_rules recur field key_field value_field message)
                  (indices (lib.field_size message field))
                  (λ i. sub_entry-IsLockstep recur field key_field value_field message i h))
                (pure-IsLockstep none)
    where
      answer : Option Status
      answer = some (error internal (codes "map entry missing key or value field"))

      missing : M (Option Status)
      missing = pure answer

      loop : FieldDescriptor → FieldDescriptor → M (Option Status)
      loop key_field value_field =
          each (sub_entry lib schema get_message_rules recur field key_field value_field message)
            (indices (lib.field_size message field))

      entries : FieldDescriptor → FieldDescriptor → M (Option Status)
      entries key_field value_field =
          if is_message (lib.cpp_type value_field) then loop key_field value_field else pure none

  repeated_field-IsLockstep :
      (recur : Message → M Status) (message : Message) (field : FieldDescriptor)
      → ((m : Message) → IsLockstep (recur m))
      → IsLockstep (repeated_field lib schema get_message_rules recur message field)
  unfolding repeated_field
  repeated_field-IsLockstep recur message field h =
      each-IsLockstep
        (λ i.
          sub_message lib schema get_message_rules recur (element i)
            (lib.get_repeated_message message field i))
        (indices (lib.field_size message field))
        (λ i. sub_message-IsLockstep recur (element i) (lib.get_repeated_message message field i) h)
    where
      element : ℕ → FieldPathElement
      element i = record (field_path_element lib field) { subscript = at_index i }

  validate_sub_field-IsLockstep :
      (recur : Message → M Status) (message : Message) (field : FieldDescriptor)
      → ((m : Message) → IsLockstep (recur m))
      → IsLockstep (validate_sub_field lib schema get_message_rules recur message field)
  unfolding validate_sub_field
  validate_sub_field-IsLockstep recur message field h =
      if-IsLockstep
        (not (is_message (lib.cpp_type field)) || is_skipped lib schema get_message_rules field)
        (pure none) _ (pure-IsLockstep none)
        (if-IsLockstep (lib.is_map field)
          (map_field lib schema get_message_rules recur message field) _
          (map_field-IsLockstep recur message field h)
          (if-IsLockstep (lib.is_repeated field)
            (repeated_field lib schema get_message_rules recur message field)
            (sub_message lib schema get_message_rules recur (field_path_element lib field)
              (lib.get_message message field))
            (repeated_field-IsLockstep recur message field h)
            (sub_message-IsLockstep recur (field_path_element lib field)
              (lib.get_message message field) h)))

  rule_round-IsLockstep :
      (message : Message) (rules : ValidationRules)
      → IsLockstep (rule_round lib schema get_message_rules message rules)
  unfolding rule_round
  rule_round-IsLockstep message rules =
      bind-IsLockstep (validate lib rules message) return_or_go_on
        (validate-IsLockstep lib rules message) return_or_go_on-IsLockstep

  -- with the rules that the factory gave
  abbrev pub with_rules : (Message → M Status) → Message → Option RulesOr → M Status
  with_rules recur message found = elim found [
    | none ↦ pure (
        error not_found (
          codes "rules not loaded for message: "
          ++ lib.descriptor_name (lib.descriptor_of message)))
    | some (failure code text) ↦ pure (error code text)
    | some (value rules) ↦
        each (rule_round lib schema get_message_rules message) rules >>= λ answer. elim answer [
          | none ↦ validate_fields lib schema get_message_rules recur message
          | some status ↦ pure status
        ]
  ]

  with_rules-IsLockstep :
      (recur : Message → M Status) (message : Message) (found : Option RulesOr)
      → ((m : Message) → IsLockstep (recur m))
      → IsLockstep (with_rules recur message found)
  unfolding validate_fields
  with_rules-IsLockstep recur message none h = pure-IsLockstep (
      error not_found
        (codes "rules not loaded for message: " ++ lib.descriptor_name (lib.descriptor_of message)))
  with_rules-IsLockstep recur message (some (failure code text)) h =
      pure-IsLockstep (error code text)
  with_rules-IsLockstep recur message (some (value rules)) h =
      bind-IsLockstep (each (rule_round lib schema get_message_rules message) rules)
        (λ answer. elim answer [
          | none ↦ validate_fields lib schema get_message_rules recur message
          | some status ↦ pure status
        ])
        (each-IsLockstep (rule_round lib schema get_message_rules message) rules
          (rule_round-IsLockstep message))
        λ answer.
          either-IsLockstep answer (validate_fields lib schema get_message_rules recur message) pure
            (for_each-IsLockstep (validate_sub_field lib schema get_message_rules recur message)
              (lib.list_fields message)
              (λ field. validate_sub_field-IsLockstep recur message field h))
            pure-IsLockstep

  pub validate_message-IsLockstep :
      (exhausted : Status) (fuel : ℕ) (message : Message)
      → IsLockstep (validate_message lib schema get_message_rules exhausted fuel message)
  unfolding validate_message
  validate_message-IsLockstep exhausted zero message = pure-IsLockstep exhausted
  validate_message-IsLockstep exhausted (suc fuel) message =
      with_rules-IsLockstep (validate_message lib schema get_message_rules exhausted fuel) message
        (get_message_rules (lib.descriptor_of message)) (validate_message-IsLockstep exhausted fuel)
