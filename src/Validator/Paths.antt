-- ===== src/Validator/Paths.antt =====
-- The paths of the violations that a message in a field adds: ValidateFields of
-- buf/validate/validator.cc.
use protovalidate_cc.Base.{
  true, false, ◌≡◌, ap, ◌∙◌, sym, ◌++◌, append-nil, length, length-append, Option, List, [], ◌∷◌,
  map, ltb, arith,
}
use protovalidate_cc.Proto.{Libraries, Message, Descriptor, Status}
use protovalidate_cc.Rules.Context.Monad.{M, return_or_go_on}
use protovalidate_cc.Rules.Context.Paths.{in_front, append_field_path_element-in_front}
use protovalidate_cc.Rules.Context.{RuleContext, RuleViolation, finalize_violation, finalize}
use protovalidate_cc.Rules.Kinds.{RulesOr}
use protovalidate_cc.Rules.Options.{Schema}
use protovalidate_cc.Rules.Path.Print.{FieldPathElement}
use protovalidate_cc.Validator.{tag_message, sub_message}

module _ (lib : Libraries) (schema : Schema) (get_message_rules : Descriptor → Option RulesOr) where
  tag_message-in_front :
      (e : FieldPathElement) (ctx : RuleContext) (earlier later : List RuleViolation)
      → ctx.violations ≡ earlier ++ later
      → (finalize (tag_message lib schema get_message_rules e (length earlier) ctx).1).violations
        ≡ map finalize_violation earlier ++ map (λ v. in_front e (finalize_violation v)) later
  unfolding tag_message finalize
  tag_message-in_front e ctx earlier [] h =
      let same : ctx.violations ≡ earlier = h ∙ append-nil earlier in
      let grown : ltb (length earlier) (length ctx.violations) ≡ false =
        ground (arith, ap length same) in
      rw grown
        (ap (map finalize_violation) same ∙ sym (append-nil (map finalize_violation earlier)))
  tag_message-in_front e ctx earlier (v ∷ later) h =
      let grown : ltb (length earlier) (length ctx.violations) ≡ true =
        ground (arith, ap length h ∙ length-append earlier (v ∷ later)) in
      rw grown (append_field_path_element-in_front e ctx earlier (v ∷ later) h)

  -- Where validating a message in a field adds some violations, these get the element of the
  -- field in front of their path, as `finalize` leaves it, and the violations that were there
  -- before get no element.
  pub sub_message-in_front :
      (recur : Message → M Status) (e : FieldPathElement) (message : Message)
      (ctx ctx' : RuleContext) (status : Status) (new : List RuleViolation)
      → recur message ctx ≡ (status, ctx')
      → ctx'.violations ≡ ctx.violations ++ new
      → (finalize (sub_message lib schema get_message_rules recur e message ctx).1).violations
        ≡ map finalize_violation ctx.violations ++ map (λ v. in_front e (finalize_violation v)) new
  unfolding sub_message return_or_go_on
  sub_message-in_front recur e message ctx ctx' status new run grown =
      rw run (tag_message-in_front e ctx' ctx.violations new grown)
