-- ===== src/Rules/Context/Paths.antt =====
-- How the paths of violations are built from the inside out and turned round at the end:
-- buf/validate/internal/validation_rules.h.
use protovalidate_cc.Base.{◌≡◌, refl, ap, ◌++◌, length, Option, none, some, List, [], ◌∷◌, map}
use mathlib.Core.List.{reverse-append}
use protovalidate_cc.Rules.Context.{
  RuleContext, RuleViolation, update_from, elements, add_elements, with_field_element,
  append_field_path_element, reverse_path, finalize_violation, finalize,
}
use protovalidate_cc.Rules.Path.Print.{FieldPathElement}

-- the element as the outermost one of the field's path
abbrev pub in_front : FieldPathElement → RuleViolation → RuleViolation
in_front e v = record v { proto = record v.proto { path = some (e ∷ elements v.proto.path) } }

reverse_path-add_elements :
    (e : FieldPathElement) (p : Option (List FieldPathElement))
    → reverse_path (add_elements (e ∷ []) p) ≡ some (e ∷ elements (reverse_path p))
reverse_path-add_elements e none = refl
reverse_path-add_elements e (some es) = ap some (reverse-append es (e ∷ []))

-- An element that is appended stands in front of the path once that is turned round.
finalize_violation-with_field_element :
    (e : FieldPathElement) (v : RuleViolation)
    → finalize_violation (with_field_element e v) ≡ in_front e (finalize_violation v)
finalize_violation-with_field_element e v =
    ap
      (λ p. record (finalize_violation v) {
        proto = record (finalize_violation v).proto { path = p };
      })
      (reverse_path-add_elements e v.proto.path)

-- what a loop from the end of a list on does to what stands behind that list
finalize-update_from :
    (e : FieldPathElement) (earlier later : List RuleViolation)
    → map finalize_violation
        (update_from (length earlier) (with_field_element e) (earlier ++ later))
      ≡ map finalize_violation earlier ++ map (λ v. in_front e (finalize_violation v)) later
unfolding update_from
finalize-update_from e [] [] = refl
finalize-update_from e [] (v ∷ later) =
    rw (finalize_violation-with_field_element e v)
      (ap (λ ws. in_front e (finalize_violation v) ∷ ws) (finalize-update_from e [] later))
finalize-update_from e (v ∷ earlier) later =
    ap (λ ws. finalize_violation v ∷ ws) (finalize-update_from e earlier later)

-- The violations behind the earlier ones get the element in front of their finished path, and the
-- earlier ones do not.
pub append_field_path_element-in_front :
    (e : FieldPathElement) (ctx : RuleContext) (earlier later : List RuleViolation)
    → ctx.violations ≡ earlier ++ later
    → (finalize (append_field_path_element e (length earlier) ctx)).violations
      ≡ map finalize_violation earlier ++ map (λ v. in_front e (finalize_violation v)) later
unfolding finalize append_field_path_element
append_field_path_element-in_front e ctx earlier later h =
    rw h (finalize-update_from e earlier later)
