-- ===== src/Rules/Path.antt =====
-- Field paths: fieldPathElement, oneofPathElement and setPathElementMapKey of
-- buf/validate/internal/rules.h. The elements are messages of validate.proto, as records.
pub mod Print
pub mod Join
use protovalidate_cc.Base.{
  ℕ, ◌+◌, ◌-◌, ◌^◌, ltb, Bool, true, false, Option, none, some, List, [], ◌∷◌, ◌++◌, if◌then◌else◌,
  Bytes, codes,
}
use protovalidate_cc.Proto.{
  Libraries, Message, FieldDescriptor, OneofDescriptor, FieldType, type_double, type_float,
  type_int64, type_uint64, type_int32, type_fixed64, type_fixed32, type_bool, type_string,
  type_group, type_message, type_bytes, type_uint32, type_enum, type_sfixed32, type_sfixed64,
  type_sint32, type_sint64, RuleField, StatusOr, value, failure, internal,
}
use Print.{Subscript, not_set, at_index, bool_key, int_key, uint_key, string_key, FieldPathElement}

-- an `int32_t` as the `int64_t` of the same value
abbrev pub widen : ℕ → ℕ
widen n = if ltb n (2 ^ 31) then n else n + (2 ^ 64 - 2 ^ 32)

module _ (lib : Libraries) where
  unfoldable pub field_path_element : FieldDescriptor → FieldPathElement
  field_path_element field = record {
    field_number = some (lib.number field);
    field_type = some (lib.field_type field);
    field_name =
        if lib.is_extension field
        then b'[' ∷ (lib.full_name field ++ (b']' ∷ []))
        else lib.field_name field;
    key_type = none;
    value_type = none;
    subscript = not_set;
  }

  -- one element for each field, made at its first use
  unfoldable pub static_field_path_element : RuleField → FieldPathElement
  unfolding field_path_element
  static_field_path_element f = field_path_element (lib.rule_field f)

  unfoldable pub oneof_path_element : OneofDescriptor → FieldPathElement
  oneof_path_element oneof = record {
    field_number = none;
    field_type = none;
    field_name = lib.oneof_name oneof;
    key_type = none;
    value_type = none;
    subscript = not_set;
  }

  -- the `switch` on the key's type; `none` is its default
  unfoldable pub map_key_subscript : FieldType → Message → FieldDescriptor → Option Subscript
  map_key_subscript type_bool message key = some (bool_key (lib.get_bool message key))
  map_key_subscript type_int32 message key = some (int_key (widen (lib.get_int32 message key)))
  map_key_subscript type_sfixed32 message key = some (int_key (widen (lib.get_int32 message key)))
  map_key_subscript type_sint32 message key = some (int_key (widen (lib.get_int32 message key)))
  map_key_subscript type_int64 message key = some (int_key (lib.get_int64 message key))
  map_key_subscript type_sfixed64 message key = some (int_key (lib.get_int64 message key))
  map_key_subscript type_sint64 message key = some (int_key (lib.get_int64 message key))
  map_key_subscript type_uint32 message key = some (uint_key (lib.get_uint32 message key))
  map_key_subscript type_fixed32 message key = some (uint_key (lib.get_uint32 message key))
  map_key_subscript type_uint64 message key = some (uint_key (lib.get_uint64 message key))
  map_key_subscript type_fixed64 message key = some (uint_key (lib.get_uint64 message key))
  map_key_subscript type_string message key = some (string_key (lib.get_string message key))
  map_key_subscript _ message key = none

  unfoldable pub set_path_element_map_key :
      FieldPathElement → Message → FieldDescriptor → FieldDescriptor → StatusOr FieldPathElement
  unfolding map_key_subscript
  set_path_element_map_key element message key_field value_field =
      elim (map_key_subscript (lib.field_type key_field) message key_field) [
        | none ↦ failure internal (codes "unexpected map key type " ++ lib.type_name key_field)
        | some key ↦ value (record element {
          key_type = some (lib.field_type key_field);
          value_type = some (lib.field_type value_field);
          subscript = key;
        })
      ]
