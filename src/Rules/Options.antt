-- ===== src/Rules/Options.antt =====
-- The messages of validate.proto that rules are built from, as data, and the library's calls that give
-- them: extensions of descriptors, unknown fields, and the compiler of CEL expressions.
use protovalidate_cc.Base.{ℕ, Bool, Option, none, some, List, Bytes}
use protovalidate_cc.Proto.{
  Message, Descriptor, FieldDescriptor, FieldDescriptors, OneofDescriptor, CelExpression, StatusOr,
}
use protovalidate_cc.Rules.Cel.{Rule}
use protovalidate_cc.Rules.Field.Any.{AnyRules}

pub data Ignore : Type 0 where
  ignore_unspecified ignore_if_zero_value ignore_always : Ignore

-- the types of `FieldRules::type` whose rules are a scalar's
pub data ScalarKind : Type 0 where
  kind_bool kind_float kind_double kind_int32 kind_int64 kind_uint32 kind_uint64 kind_sint32
        kind_sint64 kind_fixed32 kind_fixed64 kind_sfixed32 kind_sfixed64 kind_string kind_bytes :
      ScalarKind

-- the fields of FieldRules outside `type`, and the message's address
pub record FieldLevel : Type 0 where
  pub address : Message
  -- `none` where it is not set
  pub ignore : Option Ignore
  pub required : Bool
  pub cel_expression : List Bytes
  pub cel : List Rule

-- the message FieldRules. Rules of a type are known by their address.
mutual
  pub data FieldRules : Type 0 where
    field_rules : FieldLevel → TypeRules → FieldRules

  pub data TypeRules : Type 0 where
    type_not_set : TypeRules
    scalar_type : ScalarKind → Message → TypeRules
    -- `defined_only`
    enum_type : Message → Bool → TypeRules
    duration_type field_mask_type timestamp_type : Message → TypeRules
    any_type : Message → AnyRules → TypeRules
    -- RepeatedRules, without `items` and with it
    repeated_type : Message → TypeRules
    items_type : Message → FieldRules → TypeRules
    -- `keys` and `values`; the default instance where they are not set
    map_type : Message → FieldRules → FieldRules → TypeRules
    -- a case that the code does not know
    unknown_type : ℕ → TypeRules

abbrev pub level : FieldRules → FieldLevel
level (field_rules l t) = l

-- `ignore()`, with its default
abbrev pub ignore_of : FieldRules → Ignore
ignore_of (field_rules l t) = elim l.ignore [ none ↦ ignore_unspecified | some i ↦ i ]

-- MessageOneofRule and MessageRules
pub record MessageOneofRule : Type 0 where
  pub fields : List Bytes
  pub required : Bool

pub record MessageRules : Type 0 where
  pub cel_expression : List Bytes
  pub cel : List Rule
  pub oneof : List MessageOneofRule

-- by its address
abbrev pub ParsedExpr : Type 0
ParsedExpr = ℕ

pub record Schema : Type 0 where
  -- HasExtension and GetExtension of the four extensions
  pub field_level : FieldDescriptor → Option FieldRules
  pub message_level : Descriptor → Option MessageRules
  -- OneofRules' `required`
  pub oneof_level : OneofDescriptor → Option Bool
  -- PredefinedRules' `cel`
  pub predefined : FieldDescriptor → Option (List Rule)
  -- Descriptor::field, and all fields
  pub field_at : Descriptor → ℕ → FieldDescriptor
  pub descriptor_fields : Descriptor → FieldDescriptors
  pub oneof_decls : Descriptor → List OneofDescriptor
  -- `%d`
  pub number_text : ℕ → Bytes
  -- the full names of Duration, FieldMask, Timestamp and Any
  pub duration_name : Bytes
  pub field_mask_name : Bytes
  pub timestamp_name : Bytes
  pub any_name : Bytes
  pub type_name_of : Message → Bytes
  pub has_unknown : Message → Bool
  -- a message built and parsed again by the message factory; `none` where that fails
  pub reparse : Message → Option Message
  -- CopyFrom into a new message on the arena
  pub copy_from : FieldRules → FieldRules
  -- the parser, and the builder's CreateExpression
  pub parse : Bytes → StatusOr ParsedExpr
  pub create_expression : ParsedExpr → StatusOr CelExpression
