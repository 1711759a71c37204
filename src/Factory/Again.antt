-- ===== src/Factory/Again.antt =====
-- GetMessageRules of buf/validate/validator.cc asked again.
use protovalidate_cc.Base.{
  ◌≡◌, refl, ◌∙◌, Bool, true, false, Option, none, some, ◌∷◌, if◌then◌else◌, arith,
}
use protovalidate_cc.Factory.Adds.{find-first}
use protovalidate_cc.Factory.Steps.{Steps, Steps-find}
use protovalidate_cc.Factory.{
  ValidatorFactory, find, Lookup, found, refused, absent, read_section, build, write_section,
  get_message_rules,
}
use protovalidate_cc.Proto.{Libraries, Descriptor}
use protovalidate_cc.Rules.Kinds.{RulesOr}
use protovalidate_cc.Rules.Options.{Schema}

module _ (lib : Libraries) (schema : Schema) where
  write_section-finds :
      (d : Descriptor) (f : ValidatorFactory)
      → find d (write_section lib schema d f).1.rules ≡ some (write_section lib schema d f).0.0
  unfolding write_section
  write_section-finds d f = go (find d f.rules) refl
    where
      written : Option RulesOr → (RulesOr × Bool) × ValidatorFactory
      written x = elim x [
        | some r ↦ ((r, false), f)
        | none ↦
            ((build lib schema f d, true), record f { rules = (d, build lib schema f d) ∷ f.rules })
      ]

      go :
          (x : Option RulesOr)
          → find d f.rules ≡ x
          → find d (written x).1.rules ≡ some (written x).0.0
      go (some r) e = e
      go none e = find-first d (build lib schema f d) f.rules

  -- the rules that are found stand in the factory
  abbrev IsThere : Descriptor → ValidatorFactory → Lookup → Type 0
  IsThere d f (found r) = find d f.rules ≡ some r
  IsThere d f refused = Unit
  IsThere d f absent = Unit

  read_section-IsThere : (d : Descriptor) (f : ValidatorFactory) → IsThere d f (read_section d f)
  unfolding read_section
  read_section-IsThere d f = go (find d f.rules) refl f.disable_lazy_loading
    where
      go :
          (x : Option RulesOr)
          → find d f.rules ≡ x
          → (b : Bool)
          → IsThere d f (elim x [ some r ↦ found r | none ↦ if b then refused else absent ])
      go (some r) e b = e
      go none e true = tt
      go none e false = tt

  get_message_rules-finds :
      (between : ValidatorFactory → ValidatorFactory) (d : Descriptor) (f : ValidatorFactory)
      (r : RulesOr)
      → (get_message_rules lib schema between d f).0 ≡ some r
      → find d (get_message_rules lib schema between d f).1.rules ≡ some r
  unfolding get_message_rules
  get_message_rules-finds between d f r = go (read_section d f) (read_section-IsThere d f)
    where
      answer : Lookup → Option RulesOr × ValidatorFactory
      answer l = elim l [
        | found s ↦ (some s, f)
        | refused ↦ (none, f)
        | absent ↦ (
          some (write_section lib schema d (between f)).0.0,
          (write_section lib schema d (between f)).1,
        )
      ]

      go : (l : Lookup) → IsThere d f l → (answer l).0 ≡ some r → find d (answer l).1.rules ≡ some r
      go (found s) there e = there ∙ e
      go refused there e = ground arith
      go absent there e = write_section-finds d (between f) ∙ e

  found-get_message_rules :
      (between : ValidatorFactory → ValidatorFactory) (d : Descriptor) (f : ValidatorFactory)
      (r : RulesOr)
      → find d f.rules ≡ some r
      → (get_message_rules lib schema between d f).0 ≡ some r
  unfolding get_message_rules read_section
  found-get_message_rules between d f r e = rw (e, get_message_rules, read_section) refl

  -- Once `GetMessageRules` has given rules for a descriptor, it gives the same rules again after
  -- any sequence of the locked sections and of changes of lazy loading, also where lazy loading
  -- is then disabled.
  pub get_message_rules-get_message_rules :
      (between between' : ValidatorFactory → ValidatorFactory) (d : Descriptor)
      (f g : ValidatorFactory) (r : RulesOr)
      → (get_message_rules lib schema between d f).0 ≡ some r
      → Steps lib schema (get_message_rules lib schema between d f).1 g
      → (get_message_rules lib schema between' d g).0 ≡ some r
  get_message_rules-get_message_rules between between' d f g r e steps =
      found-get_message_rules between' d g r
        (Steps-find lib schema steps d r (get_message_rules-finds between d f r e))
