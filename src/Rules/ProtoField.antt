-- ===== src/Rules/ProtoField.antt =====
-- ProtoField of buf/validate/internal/proto_field.h: its size, its items and its value. The getters of
-- the reflection are parameters; a number comes as the 64-bit pattern that the cast makes.
use protovalidate_cc.Base.{
  ℕ, Bool, true, false, not, ◌&&◌, ◌||◌, Option, none, some, ltb, if◌then◌else◌, Bytes,
}
use protovalidate_cc.Proto.{
  Libraries, Message, FieldDescriptor, CppType, cpp_int32, cpp_int64, cpp_uint32, cpp_uint64,
  cpp_double, cpp_float, cpp_bool, cpp_enum, cpp_string, cpp_message,
}
use protovalidate_cc.Rules.Context.{ProtoField}
use protovalidate_cc.Rules.Path.{widen}

pub data Value : Type 0 where
  monostate : Value
  int64_value : ℕ → Value
  uint64_value : ℕ → Value
  double_value : ℕ → Value
  bool_value : Bool → Value
  string_value : Bytes → Value
  message_pointer : Message → Value

-- the getters of a field, and with an index of its items
pub record Getters : Type 0 where
  pub get_int32 : Message → FieldDescriptor → Option ℕ → ℕ
  pub get_int64 : Message → FieldDescriptor → Option ℕ → ℕ
  pub get_enum_value : Message → FieldDescriptor → Option ℕ → ℕ
  pub get_uint32 : Message → FieldDescriptor → Option ℕ → ℕ
  pub get_uint64 : Message → FieldDescriptor → Option ℕ → ℕ
  -- `static_cast<double>` of the float
  pub get_float : Message → FieldDescriptor → Option ℕ → ℕ
  pub get_double : Message → FieldDescriptor → Option ℕ → ℕ
  pub get_bool : Message → FieldDescriptor → Option ℕ → Bool
  pub get_string : Message → FieldDescriptor → Option ℕ → Bytes
  pub get_message : Message → FieldDescriptor → Option ℕ → Message

abbrev pub has_index : Option ℕ → Bool
has_index none = false
has_index (some i) = true

module _ (lib : Libraries) (getters : Getters) where
  unfoldable pub is_repeated : ProtoField → Bool
  is_repeated f = lib.is_repeated f.descriptor && not (has_index f.index)

  unfoldable pub size : ProtoField → ℕ
  unfolding is_repeated
  size f = if is_repeated f then lib.field_size f.message f.descriptor else 0

  -- of an index that is not negative
  unfoldable pub at : ProtoField → ℕ → Option ProtoField
  unfolding is_repeated
  at f i =
      if not (is_repeated f) || not (ltb i (lib.field_size f.message f.descriptor))
      then none
      else some (record { message = f.message; descriptor = f.descriptor; index = some i })

  -- the `switch` on the type
  unfoldable pub get_value : CppType → Message → FieldDescriptor → Option ℕ → Value
  get_value cpp_int32 m d i = int64_value (widen (getters.get_int32 m d i))
  get_value cpp_int64 m d i = int64_value (getters.get_int64 m d i)
  get_value cpp_enum m d i = int64_value (widen (getters.get_enum_value m d i))
  get_value cpp_uint32 m d i = uint64_value (getters.get_uint32 m d i)
  get_value cpp_uint64 m d i = uint64_value (getters.get_uint64 m d i)
  get_value cpp_float m d i = double_value (getters.get_float m d i)
  get_value cpp_double m d i = double_value (getters.get_double m d i)
  get_value cpp_bool m d i = bool_value (getters.get_bool m d i)
  get_value cpp_string m d i = string_value (getters.get_string m d i)
  get_value cpp_message m d i = message_pointer (getters.get_message m d i)

  unfoldable pub variant : ProtoField → Value
  unfolding is_repeated get_value
  variant f =
      if is_repeated f
      then monostate
      else if not (lib.is_repeated f.descriptor) && not (lib.has_field f.message f.descriptor)
      then monostate
      else get_value (lib.cpp_type f.descriptor) f.message f.descriptor f.index
