-- ===== src/Validator/Fuel.antt =====
-- The recursion of Validator::ValidateMessage into messages in messages, buf/validate/validator.cc.
use protovalidate_cc.Base.{
  ℕ, zero, suc, ◌<◌, ◌≡◌, refl, ap, ◌∙◌, Bool, true, false, not, ◌||◌, Option, none, some, List, [],
  ◌∷◌, if◌then◌else◌, map, codes, arith,
}
use protovalidate_cc.Proto.{
  Libraries, Message, Descriptor, FieldDescriptor, Status, error, value, failure, internal,
}
use protovalidate_cc.Rules.Context.Monad.{
  M, pure, ◌>>=◌, size, each, for_each, or_ok, return_or_go_on, indices,
}
use protovalidate_cc.Rules.Context.{RuleContext}
use protovalidate_cc.Rules.Field.{is_message}
use protovalidate_cc.Rules.Kinds.{RulesOr}
use protovalidate_cc.Rules.Options.{Schema}
use protovalidate_cc.Rules.Path.Print.{FieldPathElement, at_index}
use protovalidate_cc.Rules.Path.{field_path_element}
use protovalidate_cc.Validator.Lockstep.{with_rules}
use protovalidate_cc.Validator.{
  is_skipped, sub_message, tag_message, tag_sub_entry, sub_entry, map_field, repeated_field,
  validate_sub_field, validate_fields, rule_round, validate_message,
}

abbrev pub All {ℓ κ} : {A : Type ℓ} → (A → Type κ) → List A → Type κ
All P [] = Unit
All P (x ∷ xs) = P x × All P xs

-- the same on every context
abbrev Agrees {ℓ} : {A : Type ℓ} → M A → M A → Type ℓ
Agrees m n = (ctx : RuleContext) → m ctx ≡ n ctx

All-map {ℓ κ} :
    {A B : Type ℓ} (P : B → Type κ) (g : A → B) (xs : List A)
    → All P (map g xs)
    → All (λ x. P (g x)) xs
All-map P g [] h = tt
All-map P g (x ∷ xs) h = (h.0, All-map P g xs h.1)

All-weaken {ℓ κ κ'} :
    {A : Type ℓ} {P : A → Type κ} {Q : A → Type κ'} (xs : List A)
    → ((x : A) → P x → Q x)
    → All P xs
    → All Q xs
All-weaken [] f h = tt
All-weaken (x ∷ xs) f h = (f x h.0, All-weaken xs f h.1)

bind-Agrees {ℓ κ} :
    {A : Type ℓ} {B : Type κ} (m n : M A) (f : A → M B) → Agrees m n → Agrees (m >>= f) (n >>= f)
bind-Agrees m n f h ctx = ap (λ r. f r.0 r.1) (h ctx)

-- the loop behind its first round
abbrev rest_of {ℓ} :
    {A : Type ℓ}
    → (A → M (Option Status))
    → List A
    → Option Status × RuleContext
    → Option Status × RuleContext
rest_of f xs r = elim r.0 [ none ↦ each f xs r.1 | some status ↦ (some status, r.1) ]

each-Agrees {ℓ} :
    {A : Type ℓ} (f g : A → M (Option Status)) (xs : List A)
    → All (λ x. Agrees (f x) (g x)) xs
    → Agrees (each f xs) (each g xs)
unfolding each
each-Agrees f g [] h ctx = refl
each-Agrees f g (x ∷ xs) h ctx = ap (rest_of f xs) (h.0 ctx) ∙ go (each-Agrees f g xs h.1) (g x ctx)
  where
    go :
        Agrees (each f xs) (each g xs)
        → (r : Option Status × RuleContext) → rest_of f xs r ≡ rest_of g xs r
    go rest (none, ctx') = rest ctx'
    go rest (some status, ctx') = refl

-- a test that chooses both the computations and the messages they visit
if-Agrees {ℓ κ} :
    {A : Type ℓ} (P : Message → Type κ) (b : Bool) (xs ys : List Message) (m n m' n' : M A)
    → (All P xs → Agrees m m')
    → (All P ys → Agrees n n')
    → All P (if b then xs else ys)
    → Agrees (if b then m else n) (if b then m' else n')
if-Agrees P true xs ys m n m' n' hm hn h = hm h
if-Agrees P false xs ys m n m' n' hm hn h = hn h

module _ (lib : Libraries) (schema : Schema) (get_message_rules : Descriptor → Option RulesOr) where
  -- the messages that a round of the loop over the fields goes into
  abbrev value_messages : Message → FieldDescriptor → Option FieldDescriptor → List Message
  value_messages message field none = []
  value_messages message field (some value_field) =
      if is_message (lib.cpp_type value_field)
      then map (λ i. lib.get_message (lib.get_repeated_message message field i) value_field)
          (indices (lib.field_size message field))
      else []

  abbrev entry_messages : Message → FieldDescriptor → Option FieldDescriptor → List Message
  entry_messages message field none = []
  entry_messages message field (some key_field) =
      value_messages message field (lib.field_by_name (lib.message_type field) (codes "value"))

  abbrev pub sub_messages : Message → FieldDescriptor → List Message
  sub_messages message field =
      if not (is_message (lib.cpp_type field)) || is_skipped lib schema get_message_rules field
      then []
      else if lib.is_map field
      then entry_messages message field (lib.field_by_name (lib.message_type field) (codes "key"))
      else if lib.is_repeated field
      then map (lib.get_repeated_message message field) (indices (lib.field_size message field))
      else lib.get_message message field ∷ []

  module _ (recur recur' : Message → M Status) where
    abbrev IsSame : Message → Type 0
    IsSame m = Agrees (recur m) (recur' m)

    sub_message-Agrees :
        (element : FieldPathElement) (m : Message)
        → IsSame m
        → Agrees
            (sub_message lib schema get_message_rules recur element m)
            (sub_message lib schema get_message_rules recur' element m)
    unfolding sub_message
    sub_message-Agrees element m h ctx =
        bind-Agrees (recur m) (recur' m)
          (λ status. tag_message lib schema get_message_rules element (size ctx).0 >>= λ _.
            return_or_go_on status)
          h ctx

    repeated_field-Agrees :
        (message : Message) (field : FieldDescriptor)
        → All IsSame
            (map (lib.get_repeated_message message field) (indices (lib.field_size message field)))
        → Agrees
            (repeated_field lib schema get_message_rules recur message field)
            (repeated_field lib schema get_message_rules recur' message field)
    unfolding repeated_field
    repeated_field-Agrees message field h =
        each-Agrees _ _ (indices (lib.field_size message field)) (
          All-weaken (indices (lib.field_size message field))
            (λ i.
              sub_message-Agrees (record (field_path_element lib field) { subscript = at_index i })
                (lib.get_repeated_message message field i))
            (All-map IsSame (lib.get_repeated_message message field)
              (indices (lib.field_size message field)) h))

    sub_entry-Agrees :
        (field key_field value_field : FieldDescriptor) (message : Message) (i : ℕ)
        → IsSame (lib.get_message (lib.get_repeated_message message field i) value_field)
        → Agrees
            (sub_entry lib schema get_message_rules recur field key_field value_field message i)
            (sub_entry lib schema get_message_rules recur' field key_field value_field message i)
    unfolding sub_entry
    sub_entry-Agrees field key_field value_field message i h ctx =
        bind-Agrees (recur inner) (recur' inner)
          (tag_sub_entry lib schema get_message_rules field key_field value_field
            (lib.get_repeated_message message field i) (size ctx).0)
          h ctx
      where
        inner : Message
        inner = lib.get_message (lib.get_repeated_message message field i) value_field

    map_field-Agrees :
        (message : Message) (field : FieldDescriptor)
        → All IsSame (
            entry_messages message field (lib.field_by_name (lib.message_type field) (codes "key")))
        → Agrees
            (map_field lib schema get_message_rules recur message field)
            (map_field lib schema get_message_rules recur' message field)
    unfolding map_field
    map_field-Agrees message field =
        keyed (lib.field_by_name (lib.message_type field) (codes "key"))
      where
        missing : M (Option Status)
        missing = pure (some (error internal (codes "map entry missing key or value field")))

        entries : (Message → M Status) → FieldDescriptor → FieldDescriptor → M (Option Status)
        entries r k v =
            if is_message (lib.cpp_type v)
            then each (sub_entry lib schema get_message_rules r field k v message)
                (indices (lib.field_size message field))
            else pure none

        valued :
            (k : FieldDescriptor) (found : Option FieldDescriptor)
            → All IsSame (value_messages message field found)
            → Agrees {A = Option Status}
                (elim found [ none ↦ missing | some v ↦ entries recur k v ])
                (elim found [ none ↦ missing | some v ↦ entries recur' k v ])
        valued k none h ctx = refl
        valued k (some v) h ctx =
            if-Agrees IsSame (is_message (lib.cpp_type v)) _ _ _ _ _ _
              (λ h. each-Agrees _ _ (indices (lib.field_size message field)) (
                All-weaken (indices (lib.field_size message field))
                  (sub_entry-Agrees field k v message)
                  (All-map IsSame
                    (λ i. lib.get_message (lib.get_repeated_message message field i) v)
                    (indices (lib.field_size message field)) h)))
              (λ h ctx. refl) h ctx

        keyed :
            (found : Option FieldDescriptor)
            → All IsSame (entry_messages message field found)
            → Agrees {A = Option Status}
                (elim found [
                  | none ↦ missing
                  | some k ↦ elim (lib.field_by_name (lib.message_type field) (codes "value")) [
                    | none ↦ missing
                    | some v ↦ entries recur k v
                  ]
                ])
                (elim found [
                  | none ↦ missing
                  | some k ↦ elim (lib.field_by_name (lib.message_type field) (codes "value")) [
                    | none ↦ missing
                    | some v ↦ entries recur' k v
                  ]
                ])
        keyed none h ctx = refl
        keyed (some k) h ctx =
            valued k (lib.field_by_name (lib.message_type field) (codes "value")) h ctx

    validate_sub_field-Agrees :
        (message : Message) (field : FieldDescriptor)
        → All IsSame (sub_messages message field)
        → Agrees
            (validate_sub_field lib schema get_message_rules recur message field)
            (validate_sub_field lib schema get_message_rules recur' message field)
    unfolding validate_sub_field
    validate_sub_field-Agrees message field =
        if-Agrees IsSame
          (not (is_message (lib.cpp_type field)) || is_skipped lib schema get_message_rules field) _
          _ _ _ _ _ (λ h ctx. refl)
          (if-Agrees IsSame (lib.is_map field) _ _ _ _ _ _ (map_field-Agrees message field) (
            if-Agrees IsSame (lib.is_repeated field) _ _ _ _ _ _
              (repeated_field-Agrees message field)
              (λ h.
                sub_message-Agrees (field_path_element lib field) (lib.get_message message field)
                  h.0)))

    validate_fields-Agrees :
        (message : Message)
        → All (λ field. All IsSame (sub_messages message field)) (lib.list_fields message)
        → Agrees
            (validate_fields lib schema get_message_rules recur message)
            (validate_fields lib schema get_message_rules recur' message)
    unfolding validate_fields for_each
    validate_fields-Agrees message h =
        bind-Agrees _ _ (λ answer. pure (or_ok answer))
          (each-Agrees (validate_sub_field lib schema get_message_rules recur message)
            (validate_sub_field lib schema get_message_rules recur' message)
            (lib.list_fields message)
            (All-weaken (lib.list_fields message) (validate_sub_field-Agrees message) h))

  -- a number for each message, smaller for a message inside
  abbrev pub IsRank : (Message → ℕ) → Type 0
  IsRank rank =
      (m : Message)
      → All (λ field. All (λ s. rank s < rank m) (sub_messages m field)) (lib.list_fields m)

  -- with the rules that the factory gave
  with_rules-Agrees :
      (recur recur' : Message → M Status) (message : Message) (found : Option RulesOr)
      → Agrees
          (validate_fields lib schema get_message_rules recur message)
          (validate_fields lib schema get_message_rules recur' message)
      → Agrees
          (with_rules lib schema get_message_rules recur message found)
          (with_rules lib schema get_message_rules recur' message found)
  with_rules-Agrees recur recur' message none h ctx = refl
  with_rules-Agrees recur recur' message (some (failure code text)) h ctx = refl
  with_rules-Agrees recur recur' message (some (value rules)) h ctx =
      go (each (rule_round lib schema get_message_rules message) rules ctx)
    where
      go :
          (r : Option Status × RuleContext)
          → elim r.0 as (λ _. M Status) [
            | none ↦ validate_fields lib schema get_message_rules recur message
            | some status ↦ pure status
          ]
              r.1
            ≡ elim r.0 as (λ _. M Status) [
              | none ↦ validate_fields lib schema get_message_rules recur' message
              | some status ↦ pure status
            ]
                r.1
      go (none, ctx') = h ctx'
      go (some status, ctx') = refl

  pub validate_message-Agrees :
      (rank : Message → ℕ)
      → IsRank rank
      → (e e' : Status) (n n' : ℕ) (message : Message) → rank message < n
      → rank message < n'
      → Agrees
          (validate_message lib schema get_message_rules e n message)
          (validate_message lib schema get_message_rules e' n' message)
  unfolding validate_message
  validate_message-Agrees rank h e e' zero n' message hn hn' = absurd (omega arith)
  validate_message-Agrees rank h e e' (suc n) zero message hn hn' = absurd (omega arith)
  validate_message-Agrees rank h e e' (suc n) (suc n') message hn hn' =
      with_rules-Agrees recur recur' message (get_message_rules (lib.descriptor_of message)) (
        validate_fields-Agrees recur recur' message (
          All-weaken (lib.list_fields message)
            (λ field.
              All-weaken (sub_messages message field)
                (λ s lt. validate_message-Agrees rank h e e' n n' s (omega arith) (omega arith)))
            (h message)))
    where
      recur : Message → M Status
      recur = validate_message lib schema get_message_rules e n

      recur' : Message → M Status
      recur' = validate_message lib schema get_message_rules e' n'
