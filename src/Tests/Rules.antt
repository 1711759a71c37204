-- ===== src/Tests/Rules.antt =====
-- A small world for the rules and the validator: message 0 has message 1 in its field 10, and the rules
-- of both.
use protovalidate_cc.Base.{
  ℕ, zero, suc, ◌-◌, ◌≡◌, ◌↔◌, ◌⊎◌, inl, inr, refl, true, false, Option, none, some, List, [], ◌∷◌,
  ◌++◌, ◌==◌, if◌then◌else◌, map, codes, arith,
}
use protovalidate_cc.Factory.Adds.{IsClosed, add-exhausted}
use protovalidate_cc.Factory.Again.{get_message_rules-get_message_rules}
use protovalidate_cc.Factory.Steps.{
  Steps, here, next, write, disable, IsValid, Steps-IsValid, Steps-find, get_message_rules-build,
}
use protovalidate_cc.Factory.{
  ValidatorFactory, new_factory, find, build, write_section, get_message_rules,
  disable_lazy_loading, add,
}
use protovalidate_cc.Proto.{
  Libraries, Message, Descriptor, FieldDescriptor, type_message, type_string, Status, cpp_message,
  cpp_string, ok, error, value, internal, cel_null, cel_bool, cel_int, cel_message, cel_error,
  cel_other,
}
use protovalidate_cc.Rules.Build.Field.Types.{Accepts, new_field_rules-Accepts}
use protovalidate_cc.Rules.Build.Field.{new_field_rules}
use protovalidate_cc.Rules.Build.Message.Oneofs.{AllNew, oneof_fields-AllNew}
use protovalidate_cc.Rules.Build.Message.{oneof_fields}
use protovalidate_cc.Rules.Cel.{CelValidationRules}
use protovalidate_cc.Rules.Context.Paths.{in_front}
use protovalidate_cc.Validator.Paths.{sub_message-in_front}
use protovalidate_cc.Rules.Context.Monad.{M}
use protovalidate_cc.Rules.Context.{
  RuleContext, RuleViolation, ProtoField, finalize_violation, finalize,
}
use protovalidate_cc.Rules.Field.Any.Lists.{Has, validate_any-Has}
use protovalidate_cc.Rules.Field.Any.{AnyRules, validate_any, type_url_field}
use protovalidate_cc.Rules.Field.{FieldValidationRules}
use protovalidate_cc.Rules.Kinds.{plain, message_rules, message_oneof_rules, RulesOr, validate}
use protovalidate_cc.Rules.Lockstep.Kinds.{validate-with_fail_fast}
use protovalidate_cc.Rules.Lockstep.{with_fail_fast}
use protovalidate_cc.Rules.Oneof.Counts.{Judged, validate_message_oneof-Judged}
use protovalidate_cc.Rules.Oneof.{MessageOneofValidationRules, validate_message_oneof}
use protovalidate_cc.Rules.Options.{
  Schema, FieldRules, field_rules, FieldLevel, scalar_type, kind_string,
}
use protovalidate_cc.Rules.Path.Join.{join_dots, element_string, field_path_string-join_dots}
use protovalidate_cc.Rules.Path.Print.{Text, FieldPathElement, at_index, field_path_string}
use protovalidate_cc.Rules.Repeated.AnyStatus.{item_status-validate_cel}
use protovalidate_cc.Rules.Repeated.{item_status}
use protovalidate_cc.Validator.Fuel.{IsRank}
use protovalidate_cc.Validator.Outcome.{no_violations, validate-fail_fast, validate-exhausted}
use protovalidate_cc.Validator.Result.{ValidationResult, Validator}
use protovalidate_cc.Validator.Result as Result
use protovalidate_cc.Validator.{is_skipped, sub_message}

abbrev fields_of : Message → List FieldDescriptor
fields_of zero = 10 ∷ []
fields_of (suc m) = []

abbrev toy : Libraries
toy = record {
  number = λ f. f;
  field_type = λ f. if f == 10 then type_message else type_string;
  cpp_type = λ f. if f == 10 then cpp_message else cpp_string;
  is_extension = λ f. false;
  full_name = λ f. codes "toy.field";
  field_name = λ f. codes "field";
  is_map = λ f. false;
  is_repeated = λ f. f == 12;
  has_presence = λ f. false;
  in_map_entry = λ f. false;
  message_type = λ f. 1;
  type_name = λ f. codes "message";
  descriptor_name = λ d. codes "toy.Message";
  field_by_name = λ d name. some 11;
  oneof_name = λ o. codes "choice";
  join_commas = λ names. codes "a, b";
  type_text = λ t. codes "type";
  rule_field = λ f. 30;
  any_of = λ m. m;
  enum_of = λ m. m;
  descriptor_of = λ m. m;
  list_fields = fields_of;
  has_field = λ m f. f == 20;
  has_oneof = λ m o. true;
  field_size = λ m f. 1;
  get_message = λ m f. suc m;
  get_repeated_message = λ m f i. suc m;
  get_enum_value = λ m f. 0;
  enum_has_value = λ f n. true;
  get_bool = λ m f. true;
  get_int32 = λ m f. 1;
  get_int64 = λ m f. 1;
  get_uint32 = λ m f. 1;
  get_uint64 = λ m f. 1;
  get_string = λ m f. codes "type.example/A";
  message_value = cel_message;
  map_value = λ m f. cel_other 0;
  list_value = λ m f. cel_other 1;
  single_value = λ m f. value (cel_int 1);
  map_size = λ m f. 1;
  list_size = λ m f. 1;
  list_item = λ m f i. cel_int i;
  list_keys = λ m f. value cel_int;
  map_at = λ m f k. cel_int 2;
  insert_value = λ old new. some new;
  evaluate = λ expr activation.
      if expr == 0 then value (cel_bool true) else value (cel_error (codes "no"));
  now = cel_other;
}

abbrev no_level : FieldLevel
no_level = record { address = 40; ignore = none; required = false; cel_expression = []; cel = [] }

abbrev toy_schema : Schema
toy_schema = record {
  field_level = λ f. none;
  message_level = λ d. none;
  oneof_level = λ o. none;
  predefined = λ f. none;
  field_at = λ d i. i;
  descriptor_fields = λ d. 20 ∷ 21 ∷ [];
  oneof_decls = λ d. [];
  number_text = λ n. codes "n";
  duration_name = codes "google.protobuf.Duration";
  field_mask_name = codes "google.protobuf.FieldMask";
  timestamp_name = codes "google.protobuf.Timestamp";
  any_name = codes "google.protobuf.Any";
  type_name_of = λ m. codes "rules";
  has_unknown = λ m. false;
  reparse = λ m. none;
  copy_from = λ r. r;
  parse = λ s. value 0;
  create_expression = λ p. value 0;
}

abbrev rule_of : ℕ → CelValidationRules
rule_of expr = record {
  rules = cel_null;
  exprs =
      record {
        rule = record { id = codes "id"; message = codes "text"; expression = codes "this" };
        expr = expr;
        rule_path = none;
        rule_field = none;
      }
      ∷ [];
}

abbrev one_of : MessageOneofValidationRules
one_of = record { fields = 20 ∷ 21 ∷ []; required = true }

abbrev toy_rules : Descriptor → Option RulesOr
toy_rules d = some (value (message_oneof_rules one_of ∷ message_rules (rule_of 0) ∷ []))

abbrev empty_context : RuleContext
empty_context = record { fail_fast = false; violations = []; clock = 0 }

abbrev a_violation : RuleViolation
a_violation = record {
  proto = record {
    rule_id = codes "id";
    message = [];
    path = none;
    rule_path = none;
    for_key = false;
  };
  field_value = none;
  rule_value = none;
}

abbrev one_violation : RuleContext
one_violation = record empty_context { violations = a_violation ∷ [] }

abbrev an_element : FieldPathElement
an_element = record {
  field_number = some 1;
  field_type = none;
  field_name = codes "a";
  key_type = none;
  value_type = none;
  subscript = at_index 3;
}

abbrev any_rules : AnyRules
any_rules = record { allowed = codes "type.example/A" ∷ []; blocked = codes "type.example/B" ∷ [] }

abbrev item_rules : FieldValidationRules
item_rules = record {
  cel = rule_of 1;
  field_rules = 50;
  field = 12;
  ignore_empty = false;
  required = false;
  any_rules = some any_rules;
}

validate-fail_fast_example :
    Result.validate toy toy_schema toy_rules (error internal []) 2 (record { fail_fast = true }) 0 0
    ≡ no_violations
unfolding Result.validate
validate-fail_fast_example =
    validate-fail_fast toy toy_schema toy_rules (error internal []) 2 false true 0 0 refl

toy-IsRank : IsRank toy toy_schema toy_rules (λ m. 1 - m)
unfolding is_skipped
toy-IsRank zero = ((omega arith, tt), tt)
toy-IsRank (suc m) = tt

validate-exhausted_example :
    Result.validate toy toy_schema toy_rules (error internal []) 2 (record { fail_fast = true }) 0 0
    ≡ Result.validate toy toy_schema toy_rules ok 7 (record { fail_fast = true }) 0 0
validate-exhausted_example =
    validate-exhausted toy toy_schema toy_rules (λ m. 1 - m) toy-IsRank (error internal []) ok 2 7
      (record { fail_fast = true }) 0 0 (omega arith) (omega arith)

validate-with_fail_fast_example :
    (empty_context.violations ≡ [])
    × (validate toy (message_rules (rule_of 0)) 0 (with_fail_fast true empty_context) ≡ (
      (validate toy (message_rules (rule_of 0)) 0 empty_context).0,
      with_fail_fast true (validate toy (message_rules (rule_of 0)) 0 empty_context).1,
    ))
unfolding validate
validate-with_fail_fast_example =
    validate-with_fail_fast toy (message_rules (rule_of 0)) 0 empty_context true refl

-- a message with one violation
abbrev one_more : M Status
one_more ctx = (ok, record ctx { violations = ctx.violations ++ one_violation.violations })

sub_message-in_front_example :
    (finalize
      (sub_message toy toy_schema toy_rules
        (λ m. one_more)
        an_element
        0
        one_violation).1).violations
    ≡ map finalize_violation one_violation.violations
      ++ map (λ v. in_front an_element (finalize_violation v)) one_violation.violations
sub_message-in_front_example =
    sub_message-in_front toy toy_schema toy_rules (λ m. one_more) an_element 0 one_violation
      (one_more one_violation).1 ok one_violation.violations refl refl

abbrev text : Text
text = record { unsigned_text = λ n. codes "3"; signed_text = λ n. codes "3"; c_escape = λ s. s }

field_path_string-join_dots_example :
    field_path_string text (an_element ∷ an_element ∷ [])
    ≡ join_dots text (map (element_string text) (an_element ∷ an_element ∷ []))
field_path_string-join_dots_example =
    field_path_string-join_dots text an_element (an_element ∷ []) (λ e. ground arith)

validate_message_oneof-Judged_example :
    Judged toy 0 one_of one_violation (validate_message_oneof toy one_of 0 one_violation)
validate_message_oneof-Judged_example = validate_message_oneof-Judged toy 0 one_of one_violation

abbrev the_field : ProtoField
the_field = record { message = 0; descriptor = 12; index = some 0 }

validate_any-Has_example :
    ((validate_any toy any_rules 50 the_field 1 empty_context).1.violations ≡ []) ↔ (
      ((any_rules.allowed ≡ []) ⊎ Has (codes "type.example/A") any_rules.allowed)
      × (¬ Has (codes "type.example/A") any_rules.blocked))
unfolding type_url_field
validate_any-Has_example = validate_any-Has toy any_rules 50 the_field 1 11 empty_context refl

item_status-validate_cel_example :
    (item_status toy item_rules item_rules 0 0 (cel_int 1) empty_context).0 ≡ ok
unfolding type_url_field
item_status-validate_cel_example =
    item_status-validate_cel toy item_rules item_rules 0 0 (cel_int 1) any_rules 11 empty_context
      refl refl

oneof_fields-AllNew_example :
    AllNew [] (codes "a" ∷ codes "b" ∷ [])
    × (map (toy.field_by_name 0) (codes "a" ∷ codes "b" ∷ []) ≡ map some (11 ∷ 11 ∷ []))
unfolding oneof_fields
oneof_fields-AllNew_example =
    oneof_fields-AllNew toy toy_schema false false 0 [] (codes "a" ∷ codes "b" ∷ []) (11 ∷ 11 ∷ [])
      refl

abbrev string_level : FieldRules
string_level = field_rules no_level (scalar_type kind_string 60)

abbrev built : FieldValidationRules
built = record {
  cel = record { rules = cel_message 60; exprs = [] };
  field_rules = 40;
  field = 21;
  ignore_empty = false;
  required = false;
  any_rules = none;
}

string_accepted :
    new_field_rules toy toy_schema false false 21 string_level ≡ value (some (built, plain))
unfolding new_field_rules
string_accepted = refl

new_field_rules-Accepts_example : Accepts toy toy_schema (scalar_type kind_string 60) 21
new_field_rules-Accepts_example =
    new_field_rules-Accepts toy toy_schema false false 21 no_level (scalar_type kind_string 60)
      (built, plain) string_accepted

abbrev loaded : ValidatorFactory
loaded = record new_factory { rules = (5, value []) ∷ [] }

abbrev other_thread : ValidatorFactory → ValidatorFactory
other_thread f = (write_section toy toy_schema 5 f).1

other-Steps : (f : ValidatorFactory) → Steps toy toy_schema f (other_thread f)
other-Steps f = next here (write 5)

Steps-IsValid_example :
    IsValid toy toy_schema (disable_lazy_loading true (other_thread new_factory))
Steps-IsValid_example =
    Steps-IsValid toy toy_schema (next (other-Steps new_factory) (disable true)) tt

Steps-find_example :
    find 5 (disable_lazy_loading true (other_thread loaded)).rules ≡ some (value [])
unfolding find
Steps-find_example =
    Steps-find toy toy_schema (next (other-Steps loaded) (disable true)) 5 (value []) refl

get_message_rules-build_example :
    ((get_message_rules toy toy_schema other_thread 6 new_factory).0
      ≡ some (build toy toy_schema new_factory 6))
    ⊎ (((get_message_rules toy toy_schema other_thread 6 new_factory).0 ≡ none)
        × ((new_factory.disable_lazy_loading ≡ true) × (find 6 new_factory.rules ≡ none)))
get_message_rules-build_example =
    get_message_rules-build toy toy_schema other_thread 6 new_factory tt (other-Steps new_factory)

-- each message has message 1 in a field
abbrev nested : Schema
nested = record toy_schema { descriptor_fields = λ d. 10 ∷ [] }

nested-IsClosed : IsClosed toy nested (0 ∷ 1 ∷ [])
nested-IsClosed d h = ((λ e. inr (inl refl)), tt)

add-exhausted_example :
    add toy nested (error internal []) 3 0 new_factory ≡ add toy nested ok 5 0 new_factory
unfolding find
add-exhausted_example =
    add-exhausted toy nested (0 ∷ 1 ∷ []) nested-IsClosed (error internal []) ok 3 5 0 new_factory
      (inl refl) (omega arith) (omega arith)

get_message_rules-get_message_rules_example :
    (get_message_rules toy toy_schema (λ f. f) 5 (disable_lazy_loading true loaded)).0
    ≡ some (value [])
unfolding get_message_rules find
get_message_rules-get_message_rules_example =
    get_message_rules-get_message_rules toy toy_schema (λ f. f) (λ f. f) 5 loaded
      (disable_lazy_loading true loaded) (value []) refl (next here (disable true))
