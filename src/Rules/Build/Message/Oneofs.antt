-- ===== src/Rules/Build/Message/Oneofs.antt =====
-- The oneof rules that NewMessageRules of buf/validate/internal/message_rules.cc accepts.
use protovalidate_cc.Base.{
  ◌≡◌, refl, ap, ◌∙◌, Bool, true, false, Option, none, some, List, [], ◌∷◌, ◌++◌, if◌then◌else◌,
  map, Bytes, codes, arith,
}
use protovalidate_cc.Proto.{
  Libraries, Descriptor, FieldDescriptor, FieldDescriptors, StatusOr, value, failure,
}
use protovalidate_cc.Proto.Result.{pure, ◌>>=◌}
use protovalidate_cc.Rules.Build.Message.{oneof_fields, oneof_failure}
use protovalidate_cc.Rules.Field.Any.Lists.{Has, found_in-Has}
use protovalidate_cc.Rules.Field.Any.{found_in}
use protovalidate_cc.Rules.Options.{Schema}

-- no name stands among those in front of it
abbrev pub AllNew : List Bytes → List Bytes → Type 0
AllNew seen [] = Unit
AllNew seen (name ∷ names) = (¬ Has name seen) × AllNew (name ∷ seen) names

-- the fields that are found, and none where the answer is an error
abbrev founds : StatusOr FieldDescriptors → List (Option FieldDescriptor)
founds (value fields) = map some fields
founds (failure code text) = []

module _ (lib : Libraries) (schema : Schema) (has_factory allow_unknown : Bool)
    (descriptor : Descriptor) where
  abbrev IsOneof : List Bytes → List Bytes → FieldDescriptors → Type 0
  IsOneof seen names fields =
      AllNew seen names × (map (lib.field_by_name descriptor) names ≡ map some fields)

  -- an answer for a name, from the two tests and the answer for the rest
  abbrev answer :
      Bytes → Bool → Option FieldDescriptor → StatusOr FieldDescriptors → StatusOr FieldDescriptors
  answer name twice field rest =
      if twice
      then oneof_failure lib schema has_factory allow_unknown
          (codes "duplicate \"" ++ (name ++ codes "\"  in oneof rule for the message ")) descriptor
      else elim field [
        | none ↦
            oneof_failure lib schema has_factory allow_unknown
              (codes "field \"" ++ (name ++ codes "\" not found in message ")) descriptor
        | some f ↦ rest >>= λ fields. pure (f ∷ fields)
      ]

  answer-IsOneof :
      (seen : List Bytes) (name : Bytes) (names : List Bytes) (fields : FieldDescriptors)
      (twice : Bool) (field : Option FieldDescriptor) (rest : StatusOr FieldDescriptors)
      → found_in name seen ≡ twice
      → lib.field_by_name descriptor name ≡ field
      → ((fs : FieldDescriptors) → rest ≡ value fs → IsOneof (name ∷ seen) names fs)
      → answer name twice field rest ≡ value fields
      → IsOneof seen (name ∷ names) fields
  answer-IsOneof seen name names fields true field rest t f h e = ground arith
  answer-IsOneof seen name names fields false none rest t f h e = ground arith
  answer-IsOneof seen name names fields false (some d) (failure code text) t f h e = ground arith
  answer-IsOneof seen name names fields false (some d) (value fs) t f h e =
      let (new, same) = h fs refl in
      (
        (λ has. clash ((found_in-Has name seen).1 has) t, new),
        ap (λ o. o ∷ map (lib.field_by_name descriptor) names) f
            ∙ ap (λ os. some d ∷ os) same
            ∙ ap founds e,
      )
    where
      clash : {b : Bool} → b ≡ true → ¬ (b ≡ false)
      clash e' e'' = ground arith

  -- The names of a oneof rule that NewMessageRules accepts are all new, and the fields are those
  -- that the descriptor finds for them, in their order.
  pub oneof_fields-AllNew :
      (seen names : List Bytes) (fields : FieldDescriptors)
      → oneof_fields lib schema has_factory allow_unknown descriptor seen names ≡ value fields
      → AllNew seen names × (map (lib.field_by_name descriptor) names ≡ map some fields)
  unfolding oneof_fields
  oneof_fields-AllNew seen [] fields e = (tt, ap founds e)
  oneof_fields-AllNew seen (name ∷ names) fields e =
      answer-IsOneof seen name names fields (found_in name seen) (lib.field_by_name descriptor name)
        (oneof_fields lib schema has_factory allow_unknown descriptor (name ∷ seen) names) refl refl
        (oneof_fields-AllNew (name ∷ seen) names) e
