-- ===== src/Factory.antt =====
-- ValidatorFactory of buf/validate/validator.h and validator.cc. A state is what the mutex guards, and
-- the settings. Each locked section is a function on states.
pub mod Steps
pub mod Adds
pub mod Again
use protovalidate_cc.Base.{
  ℕ, zero, suc, Bool, true, false, Option, none, some, List, [], ◌∷◌, ◌==◌, if◌then◌else◌,
}
use protovalidate_cc.Proto.{
  Libraries, Descriptor, FieldDescriptor, FieldDescriptors, Status, ok, error, StatusOr, value,
  failure,
}
use protovalidate_cc.Rules.Build.Message.{new_message_rules}
use protovalidate_cc.Rules.Field.{is_message}
use protovalidate_cc.Rules.Kinds.{RulesOr}
use protovalidate_cc.Rules.Options.{Schema}

pub record ValidatorFactory : Type 0 where
  -- `rules_`, the newest entry first
  pub rules : List (Descriptor × RulesOr)
  pub disable_lazy_loading : Bool
  -- whether `messageFactory_` is set
  pub has_message_factory : Bool
  pub allow_unknown_fields : Bool

-- `rules_.find(desc)`
unfoldable pub find : Descriptor → List (Descriptor × RulesOr) → Option RulesOr
find desc [] = none
find desc ((d, r) ∷ entries) = if d == desc then some r else find desc entries

abbrev pub status_of : RulesOr → Status
status_of (value rules) = ok
status_of (failure code text) = error code text

abbrev pub new_factory : ValidatorFactory
new_factory = record {
  rules = [];
  disable_lazy_loading = false;
  has_message_factory = false;
  allow_unknown_fields = false;
}

unfoldable pub disable_lazy_loading : Bool → ValidatorFactory → ValidatorFactory
disable_lazy_loading disable f = record f { disable_lazy_loading = disable }

unfoldable pub set_message_factory : ValidatorFactory → ValidatorFactory
set_message_factory f = record f { has_message_factory = true }

unfoldable pub set_allow_unknown_fields : Bool → ValidatorFactory → ValidatorFactory
set_allow_unknown_fields allow f = record f { allow_unknown_fields = allow }

-- what the section under the reader's lock finds
pub data Lookup : Type 0 where
  found : RulesOr → Lookup
  -- `return nullptr`
  refused : Lookup
  absent : Lookup

unfoldable pub read_section : Descriptor → ValidatorFactory → Lookup
unfolding find
read_section desc f = elim (find desc f.rules) [
  | some r ↦ found r
  | none ↦ if f.disable_lazy_loading then refused else absent
]

module _ (lib : Libraries) (schema : Schema) where
  -- `NewMessageRules` with the factory's settings
  unfoldable pub build : ValidatorFactory → Descriptor → RulesOr
  unfolding new_message_rules
  build f desc = new_message_rules lib schema f.has_message_factory f.allow_unknown_fields desc

  -- the section under the writer's lock, which looks again: the entry, and whether it is new
  unfoldable pub write_section : Descriptor → ValidatorFactory → (RulesOr × Bool) × ValidatorFactory
  unfolding find build
  write_section desc f = elim (find desc f.rules) [
    | some r ↦ ((r, false), f)
    | none ↦ ((build f desc, true), record f { rules = (desc, build f desc) ∷ f.rules })
  ]

  -- `GetMessageRules`; `between` is what other threads do between the sections
  unfoldable pub get_message_rules :
      (ValidatorFactory → ValidatorFactory)
      → Descriptor
      → ValidatorFactory
      → Option RulesOr × ValidatorFactory
  unfolding read_section write_section
  get_message_rules between desc f = elim (read_section desc f) [
    | found r ↦ (some r, f)
    | refused ↦ (none, f)
    | absent ↦ let ((r, new), f') = write_section desc (between f) in (some r, f')
  ]

  -- `for (…) { if (…) Add(field->message_type()) … }`
  unfoldable pub add_fields :
      (Descriptor → ValidatorFactory → Status × ValidatorFactory)
      → FieldDescriptors
      → ValidatorFactory
      → Status × ValidatorFactory
  add_fields recur [] f = (ok, f)
  add_fields recur (field ∷ fields) f =
      if is_message (lib.cpp_type field)
      then (let (status, f') = recur (lib.message_type field) f in
          elim status [ ok ↦ add_fields recur fields f' | error code text ↦ (error code text, f') ])
      else add_fields recur fields f

  -- `Add`, on fuel; `exhausted` is the status where it runs out
  unfoldable pub add : Status → ℕ → Descriptor → ValidatorFactory → Status × ValidatorFactory
  unfolding write_section add_fields
  add exhausted zero desc f = (exhausted, f)
  add exhausted (suc fuel) desc f =
      let recur = add exhausted fuel in
      let ((r, new), f') = write_section desc f in
      elim new [
        | false ↦ (status_of r, f')
        | true ↦ elim (status_of r) [
          | error code text ↦ (error code text, f')
          | ok ↦ add_fields recur (schema.descriptor_fields desc) f'
        ]
      ]
