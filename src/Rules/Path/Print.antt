-- ===== src/Rules/Path/Print.antt =====
-- fieldPathString of buf/validate/internal/validation_rules.h, and the elements that it prints.
-- `std::to_string` and `absl::CEscape` are parameters.
use protovalidate_cc.Base.{ℕ, Bool, Option, List, [], ◌∷◌, ◌++◌, if◌then◌else◌, Bytes, codes}
use protovalidate_cc.Proto.{FieldType}

-- FieldPathElement's `subscript`. An `int64` key is in two's complement.
pub data Subscript : Type 0 where
  not_set : Subscript
  at_index : ℕ → Subscript
  bool_key : Bool → Subscript
  int_key : ℕ → Subscript
  uint_key : ℕ → Subscript
  string_key : Bytes → Subscript

pub record FieldPathElement : Type 0 where
  pub field_number : Option ℕ
  pub field_type : Option FieldType
  pub field_name : Bytes
  pub key_type : Option FieldType
  pub value_type : Option FieldType
  pub subscript : Subscript

pub record Text : Type 0 where
  pub unsigned_text : ℕ → Bytes
  pub signed_text : ℕ → Bytes
  pub c_escape : Bytes → Bytes

module _ (text : Text) where
  -- the `switch` on the subscript, behind the field's name
  unfoldable pub subscript_string : Subscript → Bytes
  subscript_string not_set = []
  subscript_string (at_index i) = b'[' ∷ (text.unsigned_text i ++ (b']' ∷ []))
  subscript_string (bool_key b) = if b then codes "[true]" else codes "[false]"
  subscript_string (int_key n) = b'[' ∷ (text.signed_text n ++ (b']' ∷ []))
  subscript_string (uint_key n) = b'[' ∷ (text.unsigned_text n ++ (b']' ∷ []))
  subscript_string (string_key s) = codes "[\"" ++ (text.c_escape s ++ codes "\"]")

  -- `if (!result.empty()) result += '.'`
  abbrev pub with_dot : Bytes → Bytes
  with_dot [] = []
  with_dot (c ∷ result) = (c ∷ result) ++ (b'.' ∷ [])

  unfoldable pub append_elements : Bytes → List FieldPathElement → Bytes
  unfolding subscript_string
  append_elements result [] = result
  append_elements result (e ∷ path) =
      append_elements (with_dot result ++ (e.field_name ++ subscript_string e.subscript)) path

  unfoldable pub field_path_string : List FieldPathElement → Bytes
  unfolding append_elements
  field_path_string path = append_elements [] path
