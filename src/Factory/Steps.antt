-- ===== src/Factory/Steps.antt =====
-- The locked sections of ValidatorFactory, in any order and from any thread: buf/validate/validator.cc.
use protovalidate_cc.Base.{
  ◌≡◌, refl, ap, sym, ◌∙◌, ◌⊎◌, inl, inr, Bool, true, false, Option, none, some, List, [], ◌∷◌,
  if◌then◌else◌, arith,
}
use protovalidate_cc.Factory.{
  ValidatorFactory, find, disable_lazy_loading, Lookup, found, refused, absent, read_section, build,
  write_section, get_message_rules,
}
use protovalidate_cc.Proto.{Libraries, Descriptor}
use protovalidate_cc.Rules.Kinds.{RulesOr}
use protovalidate_cc.Rules.Options.{Schema}

module _ (lib : Libraries) (schema : Schema) where
  -- a section that writes: of GetMessageRules or Add, or a setter
  pub data Step (f : ValidatorFactory) : ValidatorFactory → Type 0 where
    write : (desc : Descriptor) → Step f (write_section lib schema desc f).1
    disable : (b : Bool) → Step f (disable_lazy_loading b f)

  pub data Steps (f : ValidatorFactory) : ValidatorFactory → Type 0 where
    here : Steps f f
    next : {g h : ValidatorFactory} → Steps f g → Step g h → Steps f h

  -- every entry is what NewMessageRules gives with the factory's settings
  abbrev pub AllBuilt : ValidatorFactory → List (Descriptor × RulesOr) → Type 0
  AllBuilt f [] = Unit
  AllBuilt f ((d, r) ∷ entries) = (r ≡ build lib schema f d) × AllBuilt f entries

  abbrev pub IsValid : ValidatorFactory → Type 0
  IsValid f = AllBuilt f f.rules

  pub write_section-find :
      (d desc : Descriptor) (r : RulesOr) (f : ValidatorFactory)
      → find d f.rules ≡ some r
      → find d (write_section lib schema desc f).1.rules ≡ some r
  unfolding find write_section
  write_section-find d desc r f e = go (find desc f.rules) refl
    where
      go :
          (x : Option RulesOr)
          → find desc f.rules ≡ x
          → find d
              (elim x as (λ _. (RulesOr × Bool) × ValidatorFactory) [
                | some s ↦ ((s, false), f)
                | none ↦ (
                  (build lib schema f desc, true),
                  record f { rules = (desc, build lib schema f desc) ∷ f.rules },
                )
              ]).1.rules
            ≡ some r
      go (some s) e' = e
      go none e' = ground arith

  find-AllBuilt :
      (f : ValidatorFactory) (d : Descriptor) (r : RulesOr) (entries : List (Descriptor × RulesOr))
      → AllBuilt f entries
      → find d entries ≡ some r
      → r ≡ build lib schema f d
  unfolding find
  find-AllBuilt f d r [] h e = ground arith
  find-AllBuilt f d r ((d', r') ∷ entries) h e = ground (arith, find-AllBuilt f d r entries)

  -- a step leaves the settings that rules are built with
  Step-build :
      {f g : ValidatorFactory}
      → Step f g
      → (d : Descriptor) → build lib schema g d ≡ build lib schema f d
  unfolding write_section disable_lazy_loading build
  Step-build {f = f} (write desc) d = go (find desc f.rules)
    where
      go :
          (x : Option RulesOr)
          → build lib schema
              (elim x as (λ _. (RulesOr × Bool) × ValidatorFactory) [
                | some s ↦ ((s, false), f)
                | none ↦ (
                  (build lib schema f desc, true),
                  record f { rules = (desc, build lib schema f desc) ∷ f.rules },
                )
              ]).1
              d
            ≡ build lib schema f d
      go (some s) = refl
      go none = refl
  Step-build (disable b) d = refl

  AllBuilt-build :
      (f g : ValidatorFactory) (entries : List (Descriptor × RulesOr))
      → ((d : Descriptor) → build lib schema g d ≡ build lib schema f d)
      → AllBuilt f entries
      → AllBuilt g entries
  AllBuilt-build f g [] e h = tt
  AllBuilt-build f g ((d, r) ∷ entries) e h = (h.0 ∙ sym (e d), AllBuilt-build f g entries e h.1)

  write_section-AllBuilt :
      (desc : Descriptor) (f : ValidatorFactory)
      → IsValid f
      → AllBuilt f (write_section lib schema desc f).1.rules
  unfolding write_section
  write_section-AllBuilt desc f h = go (find desc f.rules)
    where
      go :
          (x : Option RulesOr)
          → AllBuilt f
              (elim x as (λ _. (RulesOr × Bool) × ValidatorFactory) [
                | some s ↦ ((s, false), f)
                | none ↦ (
                  (build lib schema f desc, true),
                  record f { rules = (desc, build lib schema f desc) ∷ f.rules },
                )
              ]).1.rules
      go (some s) = h
      go none = (refl, h)

  Step-IsValid : {f g : ValidatorFactory} → Step f g → IsValid f → IsValid g
  unfolding disable_lazy_loading
  Step-IsValid {f = f} {g = g} (write desc) h =
      AllBuilt-build f g g.rules (Step-build (write desc)) (write_section-AllBuilt desc f h)
  Step-IsValid {f = f} {g = g} (disable b) h = AllBuilt-build f g f.rules (Step-build (disable b)) h

  -- Any sequence of the locked sections of `GetMessageRules` and `Add` and of changes of lazy
  -- loading keeps every entry of the factory what NewMessageRules gives for its descriptor.
  pub Steps-IsValid : {f g : ValidatorFactory} → Steps f g → IsValid f → IsValid g
  Steps-IsValid here h = h
  Steps-IsValid (next steps step) h = Step-IsValid step (Steps-IsValid steps h)

  Step-find :
      {f g : ValidatorFactory}
      → Step f g
      → (d : Descriptor) (r : RulesOr) → find d f.rules ≡ some r
      → find d g.rules ≡ some r
  unfolding disable_lazy_loading
  Step-find {f = f} (write desc) d r e = write_section-find d desc r f e
  Step-find (disable b) d r e = e

  -- Any sequence of the locked sections and of changes of lazy loading leaves the rules that the
  -- factory has for a descriptor as they are.
  pub Steps-find :
      {f g : ValidatorFactory}
      → Steps f g
      → (d : Descriptor) (r : RulesOr) → find d f.rules ≡ some r
      → find d g.rules ≡ some r
  Steps-find here d r e = e
  Steps-find (next steps step) d r e = Step-find step d r (Steps-find steps d r e)

  Steps-build :
      {f g : ValidatorFactory}
      → Steps f g
      → (d : Descriptor) → build lib schema g d ≡ build lib schema f d
  Steps-build here d = refl
  Steps-build (next steps step) d = Step-build step d ∙ Steps-build steps d

  write_section-build :
      (d : Descriptor) (f : ValidatorFactory)
      → IsValid f
      → (write_section lib schema d f).0.0 ≡ build lib schema f d
  unfolding write_section
  write_section-build d f h = go (find d f.rules) refl
    where
      go :
          (x : Option RulesOr)
          → find d f.rules ≡ x
          → (elim x as (λ _. (RulesOr × Bool) × ValidatorFactory) [
            | some s ↦ ((s, false), f)
            | none ↦ (
              (build lib schema f d, true),
              record f { rules = (d, build lib schema f d) ∷ f.rules },
            )
          ]).0.0
            ≡ build lib schema f d
      go (some s) e = find-AllBuilt f d s f.rules h e
      go none e = refl

  -- what the section under the reader's lock tells of the entry
  abbrev Tells : Descriptor → ValidatorFactory → Lookup → Type 0
  Tells d f (found r) = r ≡ build lib schema f d
  Tells d f refused = (f.disable_lazy_loading ≡ true) × (find d f.rules ≡ none)
  Tells d f absent = Unit

  read_section-Tells :
      (d : Descriptor) (f : ValidatorFactory) → IsValid f → Tells d f (read_section d f)
  unfolding read_section
  read_section-Tells d f h = go (find d f.rules) refl f.disable_lazy_loading refl
    where
      go :
          (x : Option RulesOr)
          → find d f.rules ≡ x
          → (b : Bool) → f.disable_lazy_loading ≡ b
          → Tells d f (elim x [ some r ↦ found r | none ↦ if b then refused else absent ])
      go (some r) e b e' = find-AllBuilt f d r f.rules h e
      go none e true e' = (e', e)
      go none e false e' = tt

  -- In a factory whose entries are what NewMessageRules gives, and whatever other threads write
  -- between the two locked sections, `GetMessageRules` gives what NewMessageRules gives for the
  -- descriptor, or a null pointer, and the latter only where lazy loading is disabled and the
  -- descriptor has no entry.
  pub get_message_rules-build :
      (between : ValidatorFactory → ValidatorFactory) (d : Descriptor) (f : ValidatorFactory)
      → IsValid f
      → Steps f (between f)
      → ((get_message_rules lib schema between d f).0 ≡ some (build lib schema f d))
        ⊎ (((get_message_rules lib schema between d f).0 ≡ none)
            × ((f.disable_lazy_loading ≡ true) × (find d f.rules ≡ none)))
  unfolding get_message_rules
  get_message_rules-build between d f h steps = go (read_section d f) (read_section-Tells d f h)
    where
      answer : Lookup → Option RulesOr × ValidatorFactory
      answer l = elim l [
        | found r ↦ (some r, f)
        | refused ↦ (none, f)
        | absent ↦ (
          some (write_section lib schema d (between f)).0.0,
          (write_section lib schema d (between f)).1,
        )
      ]

      go :
          (l : Lookup)
          → Tells d f l
          → ((answer l).0 ≡ some (build lib schema f d))
            ⊎ (((answer l).0 ≡ none) × ((f.disable_lazy_loading ≡ true) × (find d f.rules ≡ none)))
      go (found r) e = inl (ap some e)
      go refused e = inr (refl, e)
      go absent e = inl (
          ap some (write_section-build d (between f) (Steps-IsValid steps h) ∙ Steps-build steps d))
