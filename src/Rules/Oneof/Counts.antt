-- ===== src/Rules/Oneof/Counts.antt =====
-- When MessageOneofValidationRules::Validate of buf/validate/internal/rules.cc reports a violation.
use protovalidate_cc.Base.{
  ℕ, zero, suc, ◌≡◌, refl, ap, ◌⊎◌, inl, inr, if◌then◌else◌, Bool, true, false, ◌&&◌, [], none, ◌∷◌,
  ◌++◌, ◌==◌, ltb, map, Bytes, codes, arith,
}
use protovalidate_cc.Proto.{Libraries, Message, FieldDescriptor, FieldDescriptors, Status, ok}
use protovalidate_cc.Rules.Context.Monad.{M, pure, ◌>>◌}
use protovalidate_cc.Rules.Context.{RuleContext, RuleViolation}
use protovalidate_cc.Rules.Oneof.{
  MessageOneofValidationRules, count_set, field_names, violation_if, validate_message_oneof,
}

module _ (lib : Libraries) (message : Message) where
  abbrev pub HasField : FieldDescriptor → Type 0
  HasField f = lib.has_field message f ≡ true

  -- no field of the list is set
  abbrev pub NoneSet : FieldDescriptors → Type 0
  NoneSet [] = Unit
  NoneSet (f ∷ fields) = (lib.has_field message f ≡ false) × NoneSet fields

  -- one field of the list is set, and no other
  pub record OneSet (fields : FieldDescriptors) : Type 0 where
    pub before : FieldDescriptors
    pub set_field : FieldDescriptor
    pub behind : FieldDescriptors
    pub splits : fields ≡ before ++ (set_field ∷ behind)
    pub none_before : NoneSet before
    pub is_set : HasField set_field
    pub none_behind : NoneSet behind

  -- two fields at two places of the list are set
  pub record TwoSet (fields : FieldDescriptors) : Type 0 where
    pub before : FieldDescriptors
    pub set_field : FieldDescriptor
    pub between : FieldDescriptors
    pub other_field : FieldDescriptor
    pub behind : FieldDescriptors
    pub splits : fields ≡ before ++ (set_field ∷ (between ++ (other_field ∷ behind)))
    pub is_set : HasField set_field
    pub other_is_set : HasField other_field

  -- the count, with what it says of the list
  abbrev Counted : FieldDescriptors → ℕ → Type 0
  Counted fields zero = NoneSet fields
  Counted fields (suc zero) = OneSet fields
  Counted fields (suc (suc n)) = TwoSet fields

  later-Counted :
      (f : FieldDescriptor) (fields : FieldDescriptors) (n : ℕ)
      → lib.has_field message f ≡ false
      → Counted fields n
      → Counted (f ∷ fields) n
  later-Counted f fields zero e c = (e, c)
  later-Counted f fields (suc zero) e c = record {
    before = f ∷ c.before;
    set_field = c.set_field;
    behind = c.behind;
    splits = ap (λ fs. f ∷ fs) c.splits;
    none_before = (e, c.none_before);
    is_set = c.is_set;
    none_behind = c.none_behind;
  }
  later-Counted f fields (suc (suc n)) e c = record {
    before = f ∷ c.before;
    set_field = c.set_field;
    between = c.between;
    other_field = c.other_field;
    behind = c.behind;
    splits = ap (λ fs. f ∷ fs) c.splits;
    is_set = c.is_set;
    other_is_set = c.other_is_set;
  }

  first-Counted :
      (f : FieldDescriptor) (fields : FieldDescriptors) (n : ℕ)
      → HasField f
      → Counted fields n
      → Counted (f ∷ fields) (suc n)
  first-Counted f fields zero e c = record {
    before = [];
    set_field = f;
    behind = fields;
    splits = refl;
    none_before = tt;
    is_set = e;
    none_behind = c;
  }
  first-Counted f fields (suc zero) e c = record {
    before = [];
    set_field = f;
    between = c.before;
    other_field = c.set_field;
    behind = c.behind;
    splits = ap (λ fs. f ∷ fs) c.splits;
    is_set = e;
    other_is_set = c.is_set;
  }
  first-Counted f fields (suc (suc n)) e c = record {
    before = [];
    set_field = f;
    between = c.before;
    other_field = c.set_field;
    behind = c.between ++ (c.other_field ∷ c.behind);
    splits = ap (λ fs. f ∷ fs) c.splits;
    is_set = e;
    other_is_set = c.is_set;
  }

  count_set-Counted : (fields : FieldDescriptors) → Counted fields (count_set lib fields message)
  unfolding count_set
  count_set-Counted [] = tt
  count_set-Counted (f ∷ fields) = go (lib.has_field message f) refl (count_set-Counted fields)
    where
      go :
          (b : Bool)
          → lib.has_field message f ≡ b
          → Counted fields (count_set lib fields message)
          → Counted
              (f ∷ fields)
              (if b then suc (count_set lib fields message) else count_set lib fields message)
      go true e c = first-Counted f fields (count_set lib fields message) e c
      go false e c = later-Counted f fields (count_set lib fields message) e c

  -- a violation of the whole message: the rule id, the text and nothing else
  abbrev pub told : Bytes → RuleViolation
  told text = record {
    proto = record {
      rule_id = codes "message.oneof";
      message = text;
      path = none;
      rule_path = none;
      for_key = false;
    };
    field_value = none;
    rule_value = none;
  }

  -- the names of the fields, with commas between them
  abbrev pub names : MessageOneofValidationRules → Bytes
  names r = lib.join_commas (map lib.field_name r.fields)

  abbrev pub only_one : MessageOneofValidationRules → RuleViolation
  only_one r = told (codes "only one of " ++ (names r ++ codes " can be set"))

  abbrev pub at_least_one : MessageOneofValidationRules → RuleViolation
  at_least_one r = told (codes "one of " ++ (names r ++ codes " must be set"))

  -- what the rule does to a message: four cases
  abbrev pub Judged : MessageOneofValidationRules → RuleContext → Status × RuleContext → Type 0
  Judged r ctx answer =
      (NoneSet r.fields
        × ((r.required ≡ true)
            × (answer ≡ (ok, record ctx { violations = ctx.violations ++ (at_least_one r ∷ []) }))))
      ⊎ ((NoneSet r.fields × ((r.required ≡ false) × (answer ≡ (ok, ctx))))
          ⊎ ((OneSet r.fields × (answer ≡ (ok, ctx)))
              ⊎ (TwoSet r.fields
                  × (answer
                      ≡ (ok, record ctx { violations = ctx.violations ++ (only_one r ∷ []) })))))

  -- the two tests, as the code makes them
  abbrev reports : MessageOneofValidationRules → Bool → Bool → M Status
  reports r many none_set =
      violation_if lib many
        (codes "only one of " ++ (field_names lib r.fields ++ codes " can be set"))
      >> (violation_if lib none_set
            (codes "one of " ++ (field_names lib r.fields ++ codes " must be set"))
          >> pure ok)

  reports-Judged :
      (r : MessageOneofValidationRules) (n : ℕ) (b : Bool) (ctx : RuleContext)
      → r.required ≡ b
      → Counted r.fields n
      → Judged r ctx (reports r (ltb 1 n) (b && n == 0) ctx)
  unfolding violation_if field_names
  reports-Judged r zero true ctx e c = inl (c, (e, refl))
  reports-Judged r zero false ctx e c = inr (inl (c, (e, refl)))
  reports-Judged r (suc zero) true ctx e c = inr (inr (inl (c, refl)))
  reports-Judged r (suc zero) false ctx e c = inr (inr (inl (c, refl)))
  reports-Judged r (suc (suc n)) b ctx e c = inr (inr (inr (c, rw (many n, none_set b n) refl)))
    where
      many : (k : ℕ) → ltb 1 (suc (suc k)) ≡ true
      many k = ground arith

      none_set : (b' : Bool) (k : ℕ) → (b' && suc (suc k) == 0) ≡ false
      none_set b' k = ground arith

  -- A message oneof rule has the status OK and adds the one violation `one of … must be set`
  -- where no field of it is set and it is required, the one violation `only one of … can be set`
  -- where two fields at different places of it are set, and nothing where one field is set and
  -- no other, or none is set and it is not required; the violations name the fields of the rule
  -- and have no path.
  pub validate_message_oneof-Judged :
      (r : MessageOneofValidationRules) (ctx : RuleContext)
      → Judged r ctx (validate_message_oneof lib r message ctx)
  unfolding validate_message_oneof
  validate_message_oneof-Judged r ctx =
      reports-Judged r (count_set lib r.fields message) r.required ctx refl
        (count_set-Counted r.fields)
