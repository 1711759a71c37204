-- ===== src/Rules/Build/Field/Types.antt =====
-- The fields that NewFieldRules of buf/validate/internal/field_rules.cc accepts rules on.
use protovalidate_cc.Base.{
  ap, List, ◌∷◌, get_elem?, [], ==_iff, ◌≡◌, refl, sym, ◌∙◌, ◌⊎◌, inl, inr, Bool, true, false,
  Bool-cases, some, none, arith, codes, Bytes,
}
use protovalidate_cc.Proto.{
  Libraries, Message, FieldDescriptor, FieldType, type_double, type_float, type_int64, type_uint64,
  type_int32, type_fixed64, type_fixed32, type_bool, type_string, type_message, type_bytes,
  type_uint32, type_enum, type_sfixed32, type_sfixed64, type_sint32, type_sint64, RuleField,
  field_enum, field_duration, field_field_mask, field_timestamp, field_any, type_group, type_number,
  same_type, StatusOr, value, failure,
}
use protovalidate_cc.Rules.Build.Field.{
  FieldRulesOr, field_validation, scalar_case, build_scalar_field_rules, new_scalar_field_rules,
  new_well_known_rules, new_repeated_rules, new_map_rules, complete_rules, new_field_rules,
  new_type_rules,
}
use protovalidate_cc.Rules.Field.Any.Lists.{equals-true}
use protovalidate_cc.Proto.Result.{◌>>=◌}
use protovalidate_cc.Rules.Field.Any.{equals}
use protovalidate_cc.Rules.Field.{FieldValidationRules, is_message}
use protovalidate_cc.Rules.Kinds.{Subclass}
use protovalidate_cc.Rules.Options.{
  Schema, field_rules, Ignore, ignore_unspecified, ignore_if_zero_value, ignore_always, ignore_of,
  FieldLevel, TypeRules, type_not_set, scalar_type, enum_type, duration_type, field_mask_type,
  timestamp_type, any_type, repeated_type, items_type, map_type, unknown_type, ScalarKind,
  kind_bool, kind_float, kind_double, kind_int32, kind_int64, kind_uint32, kind_uint64, kind_sint32,
  kind_sint64, kind_fixed32, kind_fixed64, kind_sfixed32, kind_sfixed64, kind_string, kind_bytes,
}

module _ (lib : Libraries) (schema : Schema) where
  -- a message field whose message has the name
  abbrev pub IsNamed : Bytes → FieldDescriptor → Type 0
  IsNamed name field =
      (lib.field_type field ≡ type_message) × (lib.descriptor_name (lib.message_type field) ≡ name)

  -- a field of the type, or of the type's wrapper
  abbrev pub Wraps : FieldType → Bytes → FieldDescriptor → Type 0
  Wraps type name field = (lib.field_type field ≡ type) ⊎ IsNamed name field

  -- a field of the type, or a message field whose message has no name
  abbrev pub HasType : FieldType → FieldDescriptor → Type 0
  HasType type field = Wraps type (codes "") field

  -- the fields that the rules of a scalar are for
  abbrev pub AcceptsScalar : ScalarKind → FieldDescriptor → Type 0
  AcceptsScalar kind_bool = Wraps type_bool (codes "google.protobuf.BoolValue")
  AcceptsScalar kind_float = Wraps type_float (codes "google.protobuf.FloatValue")
  AcceptsScalar kind_double = Wraps type_double (codes "google.protobuf.DoubleValue")
  AcceptsScalar kind_int32 = Wraps type_int32 (codes "google.protobuf.Int32Value")
  AcceptsScalar kind_int64 = Wraps type_int64 (codes "google.protobuf.Int64Value")
  AcceptsScalar kind_uint32 = Wraps type_uint32 (codes "google.protobuf.UInt32Value")
  AcceptsScalar kind_uint64 = Wraps type_uint64 (codes "google.protobuf.UInt64Value")
  AcceptsScalar kind_sint32 = HasType type_sint32
  AcceptsScalar kind_sint64 = HasType type_sint64
  AcceptsScalar kind_fixed32 = HasType type_fixed32
  AcceptsScalar kind_fixed64 = HasType type_fixed64
  AcceptsScalar kind_sfixed32 = HasType type_sfixed32
  AcceptsScalar kind_sfixed64 = HasType type_sfixed64
  AcceptsScalar kind_string = Wraps type_string (codes "google.protobuf.StringValue")
  AcceptsScalar kind_bytes = Wraps type_bytes (codes "google.protobuf.BytesValue")

  -- a message field of the well-known type
  abbrev pub IsWellKnown : Bytes → FieldDescriptor → Type 0
  IsWellKnown name field =
      (is_message (lib.cpp_type field) ≡ true)
      × (lib.descriptor_name (lib.message_type field) ≡ name)

  abbrev pub IsRepeated : FieldDescriptor → Type 0
  IsRepeated field = (lib.is_repeated field ≡ true) × (lib.is_map field ≡ false)

  -- the fields that the rules of a type are for
  abbrev pub Accepts : TypeRules → FieldDescriptor → Type 0
  Accepts type_not_set field = Unit
  Accepts (scalar_type kind rules) field = AcceptsScalar kind field
  Accepts (enum_type rules defined_only) field = HasType type_enum field
  Accepts (duration_type rules) field = IsWellKnown schema.duration_name field
  Accepts (field_mask_type rules) field = IsWellKnown schema.field_mask_name field
  Accepts (timestamp_type rules) field = IsWellKnown schema.timestamp_name field
  Accepts (any_type rules any) field = IsWellKnown schema.any_name field
  Accepts (repeated_type rules) field = IsRepeated field
  Accepts (items_type rules items) field = IsRepeated field
  Accepts (map_type rules keys values) field = lib.is_map field ≡ true
  Accepts (unknown_type n) field = ⊥

-- the types in the order of their numbers, behind one for the number 0
abbrev types : List FieldType
types =
    type_double ∷ type_double ∷ type_float ∷ type_int64 ∷ type_uint64 ∷ type_int32 ∷ type_fixed64
    ∷ type_fixed32 ∷ type_bool ∷ type_string ∷ type_group ∷ type_message ∷ type_bytes ∷ type_uint32
    ∷ type_enum ∷ type_sfixed32 ∷ type_sfixed64 ∷ type_sint32 ∷ type_sint64 ∷ []

get_elem?-type_number : (t : FieldType) → get_elem? types (type_number t) ≡ some t
get_elem?-type_number type_double = refl
get_elem?-type_number type_float = refl
get_elem?-type_number type_int64 = refl
get_elem?-type_number type_uint64 = refl
get_elem?-type_number type_int32 = refl
get_elem?-type_number type_fixed64 = refl
get_elem?-type_number type_fixed32 = refl
get_elem?-type_number type_bool = refl
get_elem?-type_number type_string = refl
get_elem?-type_number type_group = refl
get_elem?-type_number type_message = refl
get_elem?-type_number type_bytes = refl
get_elem?-type_number type_uint32 = refl
get_elem?-type_number type_enum = refl
get_elem?-type_number type_sfixed32 = refl
get_elem?-type_number type_sfixed64 = refl
get_elem?-type_number type_sint32 = refl
get_elem?-type_number type_sint64 = refl

same_type-true : (s t : FieldType) → same_type s t ≡ true → s ≡ t
same_type-true s t e =
    let same : some s ≡ some t =
      sym (get_elem?-type_number s)
      ∙ (ap (get_elem? types) ((==_iff (type_number s) (type_number t)).0 e)
          ∙ get_elem?-type_number t) in
    ground arith

-- what is done with the value of an answer, which there is
bind-value {ℓ κ} :
    {A : Type ℓ} {B : Type κ} (m : StatusOr A) (f : A → StatusOr B) {b : B}
    → (m >>= f) ≡ value b
    → (a : A) × (m ≡ value a)
bind-value (value a) f e = (a, refl)
bind-value (failure code message) f e = absurd (ground arith)

module _ (lib : Libraries) (schema : Schema) (has_factory allow_unknown : Bool) where
  build_scalar_field_rules-Wraps :
      (field : FieldDescriptor) (expected : FieldType) (wrapper : Bytes) (kind : RuleField)
      (rules : Message) (r : FieldValidationRules) {r' : FieldValidationRules}
      → build_scalar_field_rules lib schema has_factory allow_unknown field expected wrapper kind
          rules r
        ≡ value r'
      → Wraps lib schema expected wrapper field
  unfolding build_scalar_field_rules
  build_scalar_field_rules-Wraps field expected wrapper kind rules r e =
      elim (Bool-cases (same_type (lib.field_type field) expected)) [
        | inl same ↦ inl (same_type-true (lib.field_type field) expected same)
        | inr other ↦ elim (Bool-cases (same_type (lib.field_type field) type_message)) [
          | inl message ↦
              elim (Bool-cases (equals (lib.descriptor_name (lib.message_type field)) wrapper)) [
                | inl named ↦ inr (
                  same_type-true (lib.field_type field) type_message message,
                  equals-true (lib.descriptor_name (lib.message_type field)) wrapper named,
                )
                | inr unnamed ↦ absurd (ground arith)
              ]
          | inr no_message ↦ absurd (ground arith)
        ]
      ]

  scalar_case-AcceptsScalar :
      (kind : ScalarKind) (field : FieldDescriptor)
      → Wraps lib schema (scalar_case kind).0 (scalar_case kind).1 field
      → AcceptsScalar lib schema kind field
  unfolding scalar_case
  scalar_case-AcceptsScalar kind_bool field h = h
  scalar_case-AcceptsScalar kind_float field h = h
  scalar_case-AcceptsScalar kind_double field h = h
  scalar_case-AcceptsScalar kind_int32 field h = h
  scalar_case-AcceptsScalar kind_int64 field h = h
  scalar_case-AcceptsScalar kind_uint32 field h = h
  scalar_case-AcceptsScalar kind_uint64 field h = h
  scalar_case-AcceptsScalar kind_sint32 field h = h
  scalar_case-AcceptsScalar kind_sint64 field h = h
  scalar_case-AcceptsScalar kind_fixed32 field h = h
  scalar_case-AcceptsScalar kind_fixed64 field h = h
  scalar_case-AcceptsScalar kind_sfixed32 field h = h
  scalar_case-AcceptsScalar kind_sfixed64 field h = h
  scalar_case-AcceptsScalar kind_string field h = h
  scalar_case-AcceptsScalar kind_bytes field h = h

  new_well_known_rules-IsWellKnown :
      (name message : Bytes) (field : FieldDescriptor) (kind : RuleField) (rules : Message)
      (r : FieldValidationRules) {r' : FieldValidationRules}
      → new_well_known_rules lib schema has_factory allow_unknown name message field kind rules r
        ≡ value r'
      → IsWellKnown lib schema name field
  unfolding new_well_known_rules
  new_well_known_rules-IsWellKnown name message field kind rules r e =
      ground (arith, equals-true (lib.descriptor_name (lib.message_type field)) name)

  new_repeated_rules-IsRepeated :
      (field : FieldDescriptor) (l : FieldLevel) (t : TypeRules) (rules : Message)
      (made : FieldRulesOr) {x : FieldValidationRules × Subclass}
      → new_repeated_rules lib schema has_factory allow_unknown field l t rules made ≡ value x
      → IsRepeated lib schema field
  unfolding new_repeated_rules
  new_repeated_rules-IsRepeated field l t rules made e = ground arith

  new_map_rules-is_map :
      (field : FieldDescriptor) (l : FieldLevel) (t : TypeRules) (rules : Message)
      (keys values : FieldRulesOr) {x : FieldValidationRules × Subclass}
      → new_map_rules lib schema has_factory allow_unknown field l t rules keys values ≡ value x
      → lib.is_map field ≡ true
  unfolding new_map_rules
  new_map_rules-is_map field l t rules keys values e = ground arith

  new_type_rules-Accepts :
      (field : FieldDescriptor) (l : FieldLevel) (t : TypeRules)
      {x : FieldValidationRules × Subclass}
      → new_type_rules lib schema has_factory allow_unknown field l t ≡ value x
      → Accepts lib schema t field
  unfolding new_type_rules new_scalar_field_rules
  new_type_rules-Accepts field l type_not_set e = tt
  new_type_rules-Accepts field l (scalar_type kind rules) e = scalar_case-AcceptsScalar kind field (
      build_scalar_field_rules-Wraps field (scalar_case kind).0 (scalar_case kind).1 _ rules
        (field_validation lib field (field_rules l (scalar_type kind rules)) none)
        (bind-value
          (new_scalar_field_rules lib schema has_factory allow_unknown field
            (field_rules l (scalar_type kind rules)) kind rules)
          _ e).1)
  new_type_rules-Accepts field l (enum_type rules defined_only) e =
      build_scalar_field_rules-Wraps field type_enum [] field_enum rules
        (field_validation lib field (field_rules l (enum_type rules defined_only)) none)
        (bind-value _ _ e).1
  new_type_rules-Accepts field l (duration_type rules) e =
      new_well_known_rules-IsWellKnown schema.duration_name _ field field_duration rules
        (field_validation lib field (field_rules l (duration_type rules)) none) (bind-value _ _ e).1
  new_type_rules-Accepts field l (field_mask_type rules) e =
      new_well_known_rules-IsWellKnown schema.field_mask_name _ field field_field_mask rules
        (field_validation lib field (field_rules l (field_mask_type rules)) none)
        (bind-value _ _ e).1
  new_type_rules-Accepts field l (timestamp_type rules) e =
      new_well_known_rules-IsWellKnown schema.timestamp_name _ field field_timestamp rules
        (field_validation lib field (field_rules l (timestamp_type rules)) none)
        (bind-value _ _ e).1
  new_type_rules-Accepts field l (any_type rules any) e =
      new_well_known_rules-IsWellKnown schema.any_name _ field field_any rules
        (field_validation lib field (field_rules l (any_type rules any)) (some any))
        (bind-value _ _ e).1
  new_type_rules-Accepts field l (repeated_type rules) e =
      new_repeated_rules-IsRepeated field l (repeated_type rules) rules (value none) e
  new_type_rules-Accepts field l (items_type rules items) e =
      new_repeated_rules-IsRepeated field l (items_type rules items) rules _ e
  new_type_rules-Accepts field l (map_type rules keys values) e =
      new_map_rules-is_map field l (map_type rules keys values) rules _ _ e
  new_type_rules-Accepts field l (unknown_type n) e = absurd (ground arith)

  -- NewFieldRules makes rules only for a field that they are for: the rules of a scalar or of an
  -- enum for a field of the type of their name, or for a message field of the wrapper in the
  -- table, and where there is none, of a message without a name; those of Duration, FieldMask,
  -- Timestamp and Any for a field of that message; those of a repeated field for one that is no
  -- map; those of a map for a map; and none for a case that is not known.
  pub new_field_rules-Accepts :
      (field : FieldDescriptor) (l : FieldLevel) (t : TypeRules)
      (x : FieldValidationRules × Subclass)
      → new_field_rules lib schema has_factory allow_unknown field (field_rules l t)
        ≡ value (some x)
      → Accepts lib schema t field
  unfolding new_field_rules complete_rules
  new_field_rules-Accepts field l t x e = go (ignore_of (field_rules l t)) e
    where
      made : StatusOr (FieldValidationRules × Subclass)
      made = new_type_rules lib schema has_factory allow_unknown field l t

      complete : FieldRulesOr
      complete = complete_rules lib schema has_factory allow_unknown l made

      go :
          (i : Ignore)
          → elim i [
            | ignore_always ↦ value none
            | ignore_unspecified ↦ complete
            | ignore_if_zero_value ↦ complete
          ]
            ≡ value (some x)
          → Accepts lib schema t field
      go ignore_always h = absurd (ground arith)
      go ignore_unspecified h = new_type_rules-Accepts field l t (bind-value made _ h).1
      go ignore_if_zero_value h = new_type_rules-Accepts field l t (bind-value made _ h).1
