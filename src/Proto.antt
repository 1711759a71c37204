-- ===== src/Proto.antt =====
-- What the rules and the validator call of protobuf, CEL and Abseil. Objects of these libraries are
-- known by their addresses; what is read from them is a parameter, the record `Libraries`.
pub mod Types
pub mod Result
pub use Types.*
use protovalidate_cc.Base.{ℕ, Bool, Option, List, Bytes}

pub record Libraries : Type 0 where
  -- google::protobuf::FieldDescriptor, OneofDescriptor and Descriptor
  pub number : FieldDescriptor → ℕ
  pub field_type : FieldDescriptor → FieldType
  pub cpp_type : FieldDescriptor → CppType
  pub is_extension : FieldDescriptor → Bool
  pub full_name : FieldDescriptor → Bytes
  pub field_name : FieldDescriptor → Bytes
  pub is_map : FieldDescriptor → Bool
  pub is_repeated : FieldDescriptor → Bool
  pub has_presence : FieldDescriptor → Bool
  -- containing_type()->options().map_entry()
  pub in_map_entry : FieldDescriptor → Bool
  pub message_type : FieldDescriptor → Descriptor
  pub type_name : FieldDescriptor → Bytes
  pub descriptor_name : Descriptor → Bytes
  pub field_by_name : Descriptor → Bytes → Option FieldDescriptor
  pub oneof_name : OneofDescriptor → Bytes
  -- FieldDescriptor::TypeName
  pub type_text : FieldType → Bytes
  -- absl::StrJoin(_, ", ")
  pub join_commas : List Bytes → Bytes
  -- the fields of the messages of validate.proto, by their generated numbers
  pub rule_field : RuleField → FieldDescriptor
  -- fieldRules_.any() and fieldRules_.enum_(), by the address of the FieldRules
  pub any_of : Message → Message
  pub enum_of : Message → Message
  -- google::protobuf::Reflection and Message
  pub descriptor_of : Message → Descriptor
  pub list_fields : Message → FieldDescriptors
  pub has_field : Message → FieldDescriptor → Bool
  pub has_oneof : Message → OneofDescriptor → Bool
  pub field_size : Message → FieldDescriptor → ℕ
  pub get_message : Message → FieldDescriptor → Message
  pub get_repeated_message : Message → FieldDescriptor → ℕ → Message
  pub get_enum_value : Message → FieldDescriptor → ℕ
  -- enum_type()->FindValueByNumber(_) != nullptr
  pub enum_has_value : FieldDescriptor → ℕ → Bool
  pub get_bool : Message → FieldDescriptor → Bool
  pub get_int32 : Message → FieldDescriptor → ℕ
  pub get_int64 : Message → FieldDescriptor → ℕ
  pub get_uint32 : Message → FieldDescriptor → ℕ
  pub get_uint64 : Message → FieldDescriptor → ℕ
  pub get_string : Message → FieldDescriptor → Bytes
  -- CEL: values of messages and fields, evaluation, and the clock's reading at its n-th call
  pub message_value : Message → CelValue
  pub map_value : Message → FieldDescriptor → CelValue
  pub list_value : Message → FieldDescriptor → CelValue
  pub single_value : Message → FieldDescriptor → StatusOr CelValue
  pub map_size : Message → FieldDescriptor → ℕ
  pub list_size : Message → FieldDescriptor → ℕ
  pub list_item : Message → FieldDescriptor → ℕ → CelValue
  pub list_keys : Message → FieldDescriptor → StatusOr (ℕ → CelValue)
  pub map_at : Message → FieldDescriptor → CelValue → CelValue
  -- what a name is bound to after Activation::InsertValue, by what it was bound to
  pub insert_value : Option CelValue → CelValue → Option CelValue
  pub evaluate : CelExpression → Activation → StatusOr CelValue
  pub now : ℕ → CelValue
