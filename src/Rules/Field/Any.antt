-- ===== src/Rules/Field/Any.antt =====
-- `FieldValidationRules::ValidateAny` of buf/validate/internal/rules.cc.
pub mod Lists
use protovalidate_cc.Base.{
  ℕ, Bool, true, false, not, ◌&&◌, ◌||◌, Option, none, some, List, [], ◌∷◌, ◌==◌, if◌then◌else◌,
  Bytes, codes,
}
use protovalidate_cc.Proto.{
  Libraries, Message, FieldDescriptor, FieldType, type_string, RuleField, field_any, any_in,
  any_not_in, Status, ok, error, invalid_argument,
}
use protovalidate_cc.Rules.Context.Monad.{M, pure, ◌>>=◌, ◌>>◌, emplace_back}
use protovalidate_cc.Rules.Context.{RuleViolation, ProtoField, is_empty}
use protovalidate_cc.Rules.Path.Print.{FieldPathElement}
use protovalidate_cc.Rules.Path.{field_path_element, static_field_path_element}

-- `in` and `not_in` of the message AnyRules
pub record AnyRules : Type 0 where
  pub allowed : List Bytes
  pub blocked : List Bytes

-- `operator==` of strings
unfoldable pub equals : Bytes → Bytes → Bool
equals [] [] = true
equals (a ∷ s) (b ∷ t) = a == b && equals s t
equals _ _ = false

-- `for (…) { if (_ == typeUri) …; break; }`
unfoldable pub found_in : Bytes → List Bytes → Bool
unfolding equals
found_in uri [] = false
found_in uri (x ∷ xs) = equals x uri || found_in uri xs

abbrev pub is_string : FieldType → Bool
is_string type_string = true
is_string _ = false

module _ (lib : Libraries) where
  -- `if (field.index() == -1) …`
  unfoldable pub any_path : ProtoField → Option (List FieldPathElement)
  unfolding field_path_element
  any_path field = elim field.index [
    | none ↦ some (field_path_element lib field.descriptor ∷ [])
    | some i ↦ none
  ]

  unfoldable pub any_violation : Message → ProtoField → Bytes → Bytes → RuleField → RuleViolation
  unfolding any_path static_field_path_element
  any_violation field_rules field id text rule = record {
    proto = record {
      rule_id = id;
      message = text;
      path = any_path field;
      rule_path =
          some (static_field_path_element lib rule ∷ static_field_path_element lib field_any ∷ []);
      for_key = false;
    };
    field_value = some field;
    rule_value = some (record {
      message = lib.any_of field_rules;
      descriptor = lib.rule_field rule;
      index = none;
    });
  }

  unfoldable pub check_allowed : AnyRules → Message → ProtoField → Bytes → M (Unit {0})
  unfolding any_violation found_in
  check_allowed any field_rules field uri =
      if not (is_empty any.allowed) && not (found_in uri any.allowed)
      then emplace_back (
          any_violation field_rules field (codes "any.in")
            (codes "type URL must be in the allow list") any_in)
      else pure tt

  unfoldable pub check_blocked : AnyRules → Message → ProtoField → Bytes → M (Unit {0})
  unfolding any_violation found_in
  check_blocked any field_rules field uri =
      if found_in uri any.blocked
      then emplace_back (
          any_violation field_rules field (codes "any.not_in")
            (codes "type URL must not be in the block list") any_not_in)
      else pure tt

  -- `FindFieldByName("type_url")`, where it is a string
  unfoldable pub type_url_field : Message → Option FieldDescriptor
  type_url_field any_message =
      elim (lib.field_by_name (lib.descriptor_of any_message) (codes "type_url")) [
        | none ↦ none
        | some f ↦ if is_string (lib.field_type f) then some f else none
      ]

  unfoldable pub validate_any : AnyRules → Message → ProtoField → Message → M Status
  unfolding type_url_field check_allowed check_blocked
  validate_any any field_rules field any_message = elim (type_url_field any_message) [
    | none ↦ pure (error invalid_argument (codes "expected Any"))
    | some f ↦ do
      let uri = lib.get_string any_message f
      check_allowed any field_rules field uri
      check_blocked any field_rules field uri
      pure ok
  ]
