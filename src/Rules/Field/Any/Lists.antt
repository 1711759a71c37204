-- ===== src/Rules/Field/Any/Lists.antt =====
-- The lists of AnyRules: `ValidateAny` of buf/validate/internal/rules.cc.
use protovalidate_cc.Base.{
  and-true, ◌≡◌, ◌↔◌, ◌⊎◌, inl, inr, refl, ap, sym, ◌∙◌, Bool, true, false, not, ◌&&◌, ◌||◌, some,
  List, [], ◌∷◌, ◌++◌, append_assoc, ◌==◌, if◌then◌else◌, Bytes, codes, arith, ==_iff, Bool-cases,
}
use protovalidate_cc.Proto.{Libraries, Message, FieldDescriptor, any_in, any_not_in}
use protovalidate_cc.Rules.Context.{RuleContext, RuleViolation, ProtoField, is_empty}
use protovalidate_cc.Rules.Context.Monad.{M, pure, emplace_back}
use protovalidate_cc.Rules.Field.Any.{
  AnyRules, equals, found_in, any_violation, check_allowed, check_blocked, type_url_field,
  validate_any,
}

equals_refl : (s : Bytes) → equals s s ≡ true
unfolding equals
equals_refl [] = refl
equals_refl (c ∷ s) = rw (equals_refl s) (rw ((==_iff c c).1 refl) refl)

pub equals-true : (s t : Bytes) → equals s t ≡ true → s ≡ t
unfolding equals
equals-true [] [] e = refl
equals-true [] (d ∷ t) e = ground arith
equals-true (c ∷ s) [] e = ground arith
equals-true (c ∷ s) (d ∷ t) e =
    let (e', e'') = and-true (c == d) (equals s t) e in
    ap (λ x. x ∷ s) ((==_iff c d).0 e') ∙ ap (λ u. d ∷ u) (equals-true s t e'')

-- a list has the element
abbrev pub Has : Bytes → List Bytes → Type 0
Has uri [] = ⊥
Has uri (x ∷ xs) = (x ≡ uri) ⊎ Has uri xs

or-true : (a b : Bool) → ((a || b) ≡ true) ↔ ((a ≡ true) ⊎ (b ≡ true))
or-true true b = (λ e. inl refl, λ h. refl)
or-true false b = (inr, λ h. ground arith)

pub found_in-Has : (uri : Bytes) (xs : List Bytes) → (found_in uri xs ≡ true) ↔ Has uri xs
unfolding found_in
found_in-Has uri [] = (λ e. ground arith, λ h. absurd h)
found_in-Has uri (x ∷ xs) =
    let ih = found_in-Has uri xs in
    (λ e. there ih ((or-true (equals x uri) (found_in uri xs)).0 e), back ih)
  where
    there :
        ((found_in uri xs ≡ true) ↔ Has uri xs)
        → (equals x uri ≡ true) ⊎ (found_in uri xs ≡ true)
        → (x ≡ uri) ⊎ Has uri xs
    there ih (inl e) = inl (equals-true x uri e)
    there ih (inr e) = inr (ih.0 e)

    back :
        ((found_in uri xs ≡ true) ↔ Has uri xs)
        → (x ≡ uri) ⊎ Has uri xs
        → (equals x uri || found_in uri xs) ≡ true
    back ih (inl e) = (or-true (equals x uri) (found_in uri xs)).1 (inl (rw e (equals_refl uri)))
    back ih (inr h) = (or-true (equals x uri) (found_in uri xs)).1 (inr (ih.1 h))

-- the test of the allow list
abbrev is_not_allowed : Bytes → List Bytes → Bool
is_not_allowed uri allowed = not (is_empty allowed) && not (found_in uri allowed)

is_not_allowed-Has :
    (uri : Bytes) (allowed : List Bytes)
    → (is_not_allowed uri allowed ≡ false) ↔ ((allowed ≡ []) ⊎ Has uri allowed)
is_not_allowed-Has uri [] = (λ e. inl refl, λ h. refl)
is_not_allowed-Has uri (x ∷ xs) = (λ e. inr ((found_in-Has uri (x ∷ xs)).0 (ground arith)), back)
  where
    back : (x ∷ xs ≡ []) ⊎ Has uri (x ∷ xs) → not (found_in uri (x ∷ xs)) ≡ false
    back (inl e) = ground arith
    back (inr h) = rw ((found_in-Has uri (x ∷ xs)).1 h) refl

not-append-one {ℓ} : {A : Type ℓ} (xs : List A) (x : A) (ys : List A) → ¬ (xs ++ (x ∷ ys) ≡ xs)
not-append-one [] x ys e = ground arith
not-append-one (y ∷ xs) x ys e = not-append-one xs x ys (ground arith)

-- the violations behind two tests
abbrev reported :
    Bool → Bool → RuleViolation → RuleViolation → List RuleViolation → List RuleViolation
reported true true v w vs = (vs ++ (v ∷ [])) ++ (w ∷ [])
reported true false v w vs = vs ++ (v ∷ [])
reported false true v w vs = vs ++ (w ∷ [])
reported false false v w vs = vs

reported-none :
    (a b : Bool) (v w : RuleViolation) (vs : List RuleViolation)
    → (reported a b v w vs ≡ vs) ↔ ((a ≡ false) × (b ≡ false))
reported-none true true v w vs = (
  λ e. absurd (not-append-one vs v (w ∷ []) (sym (append_assoc vs (v ∷ []) (w ∷ [])) ∙ e)),
  λ h. ground arith,
)
reported-none true false v w vs = (λ e. absurd (not-append-one vs v [] e), λ h. ground arith)
reported-none false true v w vs = (λ e. absurd (not-append-one vs w [] e), λ h. ground arith)
reported-none false false v w vs = (λ e. (refl, refl), λ h. refl)

abbrev the_if : Bool → RuleViolation → M (Unit {0})
the_if b v = if b then emplace_back v else pure tt

module _ (lib : Libraries) where
  checks-reported :
      (any : AnyRules) (field_rules : Message) (field : ProtoField) (uri : Bytes)
      (ctx : RuleContext)
      → (check_blocked lib any field_rules field uri
          (check_allowed lib any field_rules field uri ctx).1).1.violations
        ≡ reported
            (is_not_allowed uri any.allowed)
            (found_in uri any.blocked)
            (any_violation lib field_rules field
              (codes "any.in")
              (codes "type URL must be in the allow list")
              any_in)
            (any_violation lib field_rules field
              (codes "any.not_in")
              (codes "type URL must not be in the block list")
              any_not_in)
            ctx.violations
  unfolding check_allowed check_blocked
  checks-reported any field_rules field uri ctx =
      go (is_not_allowed uri any.allowed) (found_in uri any.blocked)
    where
      v : RuleViolation
      v =
          any_violation lib field_rules field (codes "any.in")
            (codes "type URL must be in the allow list") any_in

      w : RuleViolation
      w =
          any_violation lib field_rules field (codes "any.not_in")
            (codes "type URL must not be in the block list") any_not_in

      go :
          (a b : Bool)
          → (the_if b w ((the_if a v) ctx).1).1.violations ≡ reported a b v w ctx.violations
      go true true = refl
      go true false = refl
      go false true = refl
      go false false = refl

  -- For a message whose type_url is a string, `ValidateAny` leaves the violations as they are
  -- exactly if the allow list is empty or has the URL, and the block list does not have it.
  pub validate_any-Has :
      (any : AnyRules) (field_rules : Message) (field : ProtoField) (any_message : Message)
      (url : FieldDescriptor) (ctx : RuleContext)
      → type_url_field lib any_message ≡ some url
      → ((validate_any lib any field_rules field any_message ctx).1.violations ≡ ctx.violations) ↔ (
          ((any.allowed ≡ []) ⊎ Has (lib.get_string any_message url) any.allowed)
          × (¬ Has (lib.get_string any_message url) any.blocked))
  unfolding validate_any
  validate_any-Has any field_rules field any_message url ctx e =
      let same = ran e in
      let reports =
        reported-none (is_not_allowed uri any.allowed) (found_in uri any.blocked) v w
          ctx.violations in
      (
        λ h.
            let (a, b) = reports.0 (sym same ∙ h) in
            (
              (is_not_allowed-Has uri any.allowed).0 a,
              λ has. absurd (clash ((found_in-Has uri any.blocked).1 has) b),
            ),
        λ h. same ∙ reports.1 ((is_not_allowed-Has uri any.allowed).1 h.0, not_found h.1),
      )
    where
      uri : Bytes
      uri = lib.get_string any_message url

      v : RuleViolation
      v =
          any_violation lib field_rules field (codes "any.in")
            (codes "type URL must be in the allow list") any_in

      w : RuleViolation
      w =
          any_violation lib field_rules field (codes "any.not_in")
            (codes "type URL must not be in the block list") any_not_in

      ran :
          type_url_field lib any_message ≡ some url
          → (validate_any lib any field_rules field any_message ctx).1.violations
            ≡ reported
                (is_not_allowed uri any.allowed)
                (found_in uri any.blocked)
                v
                w
                ctx.violations
      ran e' = rw (e', validate_any) (checks-reported any field_rules field uri ctx)

      clash : {b : Bool} → b ≡ true → ¬ (b ≡ false)
      clash e' e'' = ground arith

      not_found : ¬ Has uri any.blocked → found_in uri any.blocked ≡ false
      not_found h = split (Bool-cases (found_in uri any.blocked))
        where
          split :
              (found_in uri any.blocked ≡ true) ⊎ (found_in uri any.blocked ≡ false)
              → found_in uri any.blocked ≡ false
          split (inl e') = absurd (h ((found_in-Has uri any.blocked).0 e'))
          split (inr e') = e'
