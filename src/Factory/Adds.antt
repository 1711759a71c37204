-- ===== src/Factory/Adds.antt =====
-- The recursion of ValidatorFactory::Add into the messages of fields, buf/validate/validator.cc.
use protovalidate_cc.Base.{
  ℕ, zero, suc, ◌+◌, min, ◌<◌, ◌≤◌, ◌≡◌, refl, ap, ◌∙◌, ◌⊎◌, inl, inr, Bool, true, false, Option,
  none, some, List, [], ◌∷◌, if◌then◌else◌, arith, ==_iff,
}
use protovalidate_cc.Factory.Steps.{write_section-find}
use protovalidate_cc.Factory.{
  ValidatorFactory, find, build, write_section, status_of, add_fields, add,
}
use protovalidate_cc.Proto.{
  Libraries, Descriptor, FieldDescriptors, Status, ok, error, value, failure,
}
use protovalidate_cc.Rules.Field.{is_message}
use protovalidate_cc.Rules.Kinds.{RulesOr}
use protovalidate_cc.Rules.Options.{Schema}

abbrev pub Entries : Type 0
Entries = List (Descriptor × RulesOr)

abbrev pub IsIn : Descriptor → List Descriptor → Type 0
IsIn d [] = ⊥
IsIn d (x ∷ xs) = (x ≡ d) ⊎ IsIn d xs

-- how many of the descriptors have no entry
abbrev one_if_none : Option RulesOr → ℕ
one_if_none none = 1
one_if_none (some r) = 0

abbrev pub missing : List Descriptor → Entries → ℕ
missing [] es = 0
missing (d ∷ ds) es = one_if_none (find d es) + missing ds es

-- the entries that are there stay
abbrev Keeps : Entries → Entries → Type 0
Keeps es es' = (d : Descriptor) (r : RulesOr) → find d es ≡ some r → find d es' ≡ some r

one_if_none-Keeps :
    (x y : Option RulesOr)
    → ((r : RulesOr) → x ≡ some r → y ≡ some r)
    → one_if_none y ≤ one_if_none x
one_if_none-Keeps none none h = omega arith
one_if_none-Keeps none (some s) h = omega arith
one_if_none-Keeps (some r) y h = rw (h r refl) (omega arith)

missing-Keeps :
    (ds : List Descriptor) (es es' : Entries) → Keeps es es' → missing ds es' ≤ missing ds es
missing-Keeps [] es es' h = omega arith
missing-Keeps (d ∷ ds) es es' h =
    omega (arith, one_if_none-Keeps (find d es) (find d es') (h d), missing-Keeps ds es es' h)

pub find-first : (d : Descriptor) (r : RulesOr) (es : Entries) → find d ((d, r) ∷ es) ≡ some r
unfolding find
find-first d r es = rw ((==_iff d d).1 refl) refl

missing-first :
    (d : Descriptor) (r : RulesOr) (ds : List Descriptor) (es : Entries)
    → IsIn d ds
    → find d es ≡ none
    → Keeps es ((d, r) ∷ es)
    → missing ds ((d, r) ∷ es) < missing ds es
missing-first d r [] es h n k = absurd h
missing-first d r (x ∷ ds) es (inl e) n k = omega (
  arith,
  ap one_if_none (ap (λ y. find y es) e ∙ n),
  ap one_if_none (ap (λ y. find y ((d, r) ∷ es)) e ∙ find-first d r es),
  missing-Keeps ds es ((d, r) ∷ es) k,
)
missing-first d r (x ∷ ds) es (inr h) n k = omega (
  arith,
  one_if_none-Keeps (find x es) (find x ((d, r) ∷ es)) (k x),
  missing-first d r ds es h n k,
)

module _ (lib : Libraries) (schema : Schema) where
  write_section-Keeps :
      (desc : Descriptor) (f : ValidatorFactory)
      → Keeps f.rules (write_section lib schema desc f).1.rules
  write_section-Keeps desc f d r e = write_section-find lib schema d desc r f e

  add_fields-Keeps :
      (recur : Descriptor → ValidatorFactory → Status × ValidatorFactory)
      → ((d : Descriptor) (f : ValidatorFactory) → Keeps f.rules (recur d f).1.rules)
      → (fields : FieldDescriptors) (f : ValidatorFactory)
      → Keeps f.rules (add_fields lib schema recur fields f).1.rules
  unfolding add_fields
  add_fields-Keeps recur h [] f d r = λ e. e
  add_fields-Keeps recur h (field ∷ fields) f d r =
      test (is_message (lib.cpp_type field)) (add_fields-Keeps recur h fields) d r
    where
      rest : Status × ValidatorFactory → Status × ValidatorFactory
      rest p = elim p.0 [
        | ok ↦ add_fields lib schema recur fields p.1
        | error code text ↦ (error code text, p.1)
      ]

      behind :
          ((g : ValidatorFactory) → Keeps g.rules (add_fields lib schema recur fields g).1.rules)
          → (p : Status × ValidatorFactory) → Keeps p.1.rules (rest p).1.rules
      behind ih (ok, g) d r e = ih g d r e
      behind ih (error code text, g) d r e = e

      test :
          (b : Bool)
          → ((g : ValidatorFactory) → Keeps g.rules (add_fields lib schema recur fields g).1.rules)
          → Keeps f.rules
              (if b
                then rest (recur (lib.message_type field) f)
                else add_fields lib schema recur fields f).1.rules
      test true ih d r e =
          behind ih (recur (lib.message_type field) f) d r (h (lib.message_type field) f d r e)
      test false ih d r e = ih f d r e

  -- what `Add` does behind the locked section
  abbrev after_write :
      (Descriptor → ValidatorFactory → Status × ValidatorFactory)
      → Descriptor
      → (RulesOr × Bool) × ValidatorFactory
      → Status × ValidatorFactory
  after_write recur desc w = elim w.0.1 [
    | false ↦ (status_of w.0.0, w.1)
    | true ↦ elim (status_of w.0.0) [
      | error code text ↦ (error code text, w.1)
      | ok ↦ add_fields lib schema recur (schema.descriptor_fields desc) w.1
    ]
  ]

  after_write-Keeps :
      (recur : Descriptor → ValidatorFactory → Status × ValidatorFactory) (desc : Descriptor)
      → ((d : Descriptor) (f : ValidatorFactory) → Keeps f.rules (recur d f).1.rules)
      → (w : (RulesOr × Bool) × ValidatorFactory)
      → Keeps w.1.rules (after_write recur desc w).1.rules
  after_write-Keeps recur desc h ((r, false), f) d s e = e
  after_write-Keeps recur desc h ((value rules, true), f) d s e =
      add_fields-Keeps recur h (schema.descriptor_fields desc) f d s e
  after_write-Keeps recur desc h ((failure code text, true), f) d s e = e

  add-Keeps :
      (exhausted : Status) (fuel : ℕ) (desc : Descriptor) (f : ValidatorFactory)
      → Keeps f.rules (add lib schema exhausted fuel desc f).1.rules
  unfolding add
  add-Keeps exhausted zero desc f d r e = e
  add-Keeps exhausted (suc fuel) desc f d r e =
      after_write-Keeps (add lib schema exhausted fuel) desc (add-Keeps exhausted fuel)
        (write_section lib schema desc f) d r (write_section-Keeps desc f d r e)

  -- descriptors that have those of their fields' messages among them
  abbrev FieldsAreIn : FieldDescriptors → List Descriptor → Type 0
  FieldsAreIn [] ds = Unit
  FieldsAreIn (field ∷ fields) ds =
      (is_message (lib.cpp_type field) ≡ true → IsIn (lib.message_type field) ds)
      × FieldsAreIn fields ds

  abbrev pub IsClosed : List Descriptor → Type 0
  IsClosed ds = (d : Descriptor) → IsIn d ds → FieldsAreIn (schema.descriptor_fields d) ds

  abbrev Adder : Type 0
  Adder = Descriptor → ValidatorFactory → Status × ValidatorFactory

  -- the same in factories with at most this many descriptors missing
  abbrev AgreeBelow : List Descriptor → ℕ → Adder → Adder → Type 0
  AgreeBelow ds n recur recur' =
      (d : Descriptor) (f : ValidatorFactory)
      → IsIn d ds
      → missing ds f.rules < n
      → recur d f ≡ recur' d f

  abbrev IsKeeping : Adder → Type 0
  IsKeeping recur = (d : Descriptor) (f : ValidatorFactory) → Keeps f.rules (recur d f).1.rules

  add_fields-agree :
      (ds : List Descriptor) (n : ℕ) (recur recur' : Adder)
      → AgreeBelow ds n recur recur'
      → IsKeeping recur
      → (fields : FieldDescriptors) (f : ValidatorFactory) → FieldsAreIn fields ds
      → missing ds f.rules < n
      → add_fields lib schema recur fields f ≡ add_fields lib schema recur' fields f
  unfolding add_fields
  add_fields-agree ds n recur recur' same keeps [] f inside few = refl
  add_fields-agree ds n recur recur' same keeps (field ∷ fields) f inside few =
      test (is_message (lib.cpp_type field)) refl
        (λ g. add_fields-agree ds n recur recur' same keeps fields g inside.1)
    where
      rest : Adder → Status × ValidatorFactory → Status × ValidatorFactory
      rest r p = elim p.0 [
        | ok ↦ add_fields lib schema r fields p.1
        | error code text ↦ (error code text, p.1)
      ]

      Ih : Type 0
      Ih =
          (g : ValidatorFactory)
          → missing ds g.rules < n
          → add_fields lib schema recur fields g ≡ add_fields lib schema recur' fields g

      behind :
          Ih
          → (p : Status × ValidatorFactory) → missing ds p.1.rules < n
          → rest recur p ≡ rest recur' p
      behind ih (ok, g) few' = ih g few'
      behind ih (error code text, g) few' = refl

      inner : Descriptor
      inner = lib.message_type field

      test :
          (b : Bool)
          → is_message (lib.cpp_type field) ≡ b
          → Ih
          → (if b then rest recur (recur inner f) else add_fields lib schema recur fields f)
            ≡ (if b then rest recur' (recur' inner f) else add_fields lib schema recur' fields f)
      test true e ih =
          behind ih (recur inner f)
            (omega (arith, missing-Keeps ds f.rules (recur inner f).1.rules (keeps inner f)))
          ∙ ap (rest recur') (same inner f (inside.0 e) few)
      test false e ih = ih f few

  after_write-agree :
      (ds : List Descriptor) (n : ℕ) (recur recur' : Adder) (desc : Descriptor)
      → AgreeBelow ds n recur recur'
      → IsKeeping recur
      → FieldsAreIn (schema.descriptor_fields desc) ds
      → (w : (RulesOr × Bool) × ValidatorFactory) → (w.0.1 ≡ true → missing ds w.1.rules < n)
      → after_write recur desc w ≡ after_write recur' desc w
  after_write-agree ds n recur recur' desc same keeps inside ((r, false), f) few = refl
  after_write-agree ds n recur recur' desc same keeps inside ((value rules, true), f) few =
      add_fields-agree ds n recur recur' same keeps (schema.descriptor_fields desc) f inside
        (few refl)
  after_write-agree ds n recur recur' desc same keeps inside ((failure code text, true), f) few =
      refl

  -- a new entry is one missing descriptor less
  write_section-missing :
      (ds : List Descriptor) (desc : Descriptor) (f : ValidatorFactory)
      → IsIn desc ds
      → (write_section lib schema desc f).0.1 ≡ true
      → missing ds (write_section lib schema desc f).1.rules < missing ds f.rules
  unfolding write_section
  write_section-missing ds desc f h = go (find desc f.rules) refl (write_section-Keeps desc f)
    where
      written : Option RulesOr → (RulesOr × Bool) × ValidatorFactory
      written x = elim x [
        | some r ↦ ((r, false), f)
        | none ↦ (
          (build lib schema f desc, true),
          record f { rules = (desc, build lib schema f desc) ∷ f.rules },
        )
      ]

      go :
          (x : Option RulesOr)
          → find desc f.rules ≡ x
          → Keeps f.rules (written x).1.rules
          → (written x).0.1 ≡ true
          → missing ds (written x).1.rules < missing ds f.rules
      go (some r) e k new = ground arith
      go none e k new = missing-first desc (build lib schema f desc) ds f.rules h e k

  -- Among descriptors that hold those of the messages of their fields, `Add` with more fuel than
  -- descriptors without an entry is the same, in its status and in the factory behind it, as
  -- with any other such fuel and any other status where fuel runs out: the recursion ends, also
  -- where messages hold each other.
  pub add-exhausted :
      (ds : List Descriptor)
      → IsClosed ds
      → (e e' : Status) (n n' : ℕ) (desc : Descriptor) (f : ValidatorFactory) → IsIn desc ds
      → missing ds f.rules < n
      → missing ds f.rules < n'
      → add lib schema e n desc f ≡ add lib schema e' n' desc f
  unfolding add
  add-exhausted ds closed e e' zero n' desc f h few few' = absurd (omega arith)
  add-exhausted ds closed e e' (suc n) zero desc f h few few' = absurd (omega arith)
  add-exhausted ds closed e e' (suc n) (suc n') desc f h few few' =
      after_write-agree ds (min n n') (add lib schema e n) (add lib schema e' n') desc
        (λ d g inside below.
          add-exhausted ds closed e e' n n' d g inside (omega arith) (omega arith))
        (add-Keeps e n) (closed desc h) (write_section lib schema desc f)
        (λ new. omega (arith, write_section-missing ds desc f h new))
