-- ===== src/Proto/Types.antt =====
-- Addresses, statuses and values that the libraries' calls take and give.
use protovalidate_cc.Base.{ℕ, Bool, true, false, Option, List, Bytes, ◌==◌}

-- the addresses of library objects
abbrev pub Message : Type 0
Message = ℕ

abbrev pub Descriptor : Type 0
Descriptor = ℕ

abbrev pub FieldDescriptor : Type 0
FieldDescriptor = ℕ

abbrev pub FieldDescriptors : Type 0
FieldDescriptors = List ℕ

abbrev pub OneofDescriptor : Type 0
OneofDescriptor = ℕ

abbrev pub CelExpression : Type 0
CelExpression = ℕ

-- google::protobuf::FieldDescriptor::Type
pub data FieldType : Type 0 where
  type_double type_float type_int64 type_uint64 type_int32 type_fixed64 type_fixed32 type_bool
        type_string type_group type_message type_bytes type_uint32 type_enum type_sfixed32
        type_sfixed64 type_sint32 type_sint64 :
      FieldType

-- the enumerators' numbers
abbrev pub type_number : FieldType → ℕ
type_number type_double = 1
type_number type_float = 2
type_number type_int64 = 3
type_number type_uint64 = 4
type_number type_int32 = 5
type_number type_fixed64 = 6
type_number type_fixed32 = 7
type_number type_bool = 8
type_number type_string = 9
type_number type_group = 10
type_number type_message = 11
type_number type_bytes = 12
type_number type_uint32 = 13
type_number type_enum = 14
type_number type_sfixed32 = 15
type_number type_sfixed64 = 16
type_number type_sint32 = 17
type_number type_sint64 = 18

abbrev pub same_type : FieldType → FieldType → Bool
same_type s t = type_number s == type_number t

-- google::protobuf::FieldDescriptor::CppType
pub data CppType : Type 0 where
  cpp_int32 cpp_int64 cpp_uint32 cpp_uint64 cpp_double cpp_float cpp_bool cpp_enum cpp_string
        cpp_message :
      CppType

-- the fields of validate.proto's messages that the code names by their generated numbers
pub data RuleField : Type 0 where
  field_required field_cel field_cel_expression field_float field_double field_int32 field_int64
        field_uint32 field_uint64 field_sint32 field_sint64 field_fixed32 field_fixed64
        field_sfixed32 field_sfixed64 field_bool field_string field_bytes field_enum field_repeated
        field_map field_any field_duration field_field_mask field_timestamp enum_defined_only
        repeated_items map_keys map_values any_in any_not_in :
      RuleField

-- absl::StatusCode, as far as it is named
pub data StatusCode : Type 0 where
  invalid_argument failed_precondition not_found internal : StatusCode
  -- a code that a library call gives
  other_code : ℕ → StatusCode

-- absl::Status and absl::StatusOr
pub data Status : Type 0 where
  ok : Status
  error : StatusCode → Bytes → Status

abbrev pub is_ok : Status → Bool
is_ok ok = true
is_ok (error c m) = false

pub data StatusOr {ℓ} (A : Type ℓ) : Type ℓ where
  value : A → StatusOr A
  failure : StatusCode → Bytes → StatusOr A

-- cel::runtime::CelValue. Integers are in two's complement, a double is its bit pattern.
pub data CelValue : Type 0 where
  cel_null : CelValue
  cel_bool : Bool → CelValue
  cel_int : ℕ → CelValue
  cel_uint : ℕ → CelValue
  cel_double : ℕ → CelValue
  cel_string : Bytes → CelValue
  cel_bytes : Bytes → CelValue
  cel_message : Message → CelValue
  cel_error : Bytes → CelValue
  -- a list, a map, a timestamp, …, by its address
  cel_other : ℕ → CelValue

-- cel::runtime::Activation, at the names that the code binds
pub record Activation : Type 0 where
  pub this : Option CelValue
  pub rules : Option CelValue
  pub rule : Option CelValue
  pub now : Option CelValue
