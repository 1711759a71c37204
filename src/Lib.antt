-- ===== src/Lib.antt =====
-- A model of protovalidate-cc, in C++: the validator, the rules that it runs and builds, and the string
-- formats that they check.
--
-- The program's parts and the files that model them:
--   buf/validate/internal/lib/parser_common.h  Parser: character sequences (Parser/Chars),
--     the number parsers (Parser/Number) and the dotted quad (Parser/Quad), which ipv4.cc and
--     ipv6.cc both write out. Parser/State is the chain `a() && b() && ...`.
--   buf/validate/internal/lib/ipv4.h, ipv4.cc  Ipv4: `parse_ipv4_address`, `parse_ipv4_prefix`,
--     `mask` and the comparisons.
--   buf/validate/internal/lib/ipv6.h, ipv6.cc  Ipv6: `parse_ipv6_address`, `parse_ipv6_prefix`. The
--     loop of `parseAddressPart` is `scan_loop`, one round of it is `round`, and its variables are
--     the record `AddressScan`. Ipv6/Runs is the loop as a step relation.
--   buf/validate/internal/lib/uri.cc  Uri: one definition for each method of `UriParser`. Uri/Steps
--     has `&&`, `||`, saved views and the loops; Uri/Percent, Uri/Path and Uri/Authority the
--     methods; the Sound modules their languages; Uri/Loops the ends of the loops.
--   buf/validate/internal/extra_func.cc  ExtraFunc: `isIp` and `isIpPrefix` (ExtraFunc/Ip), which
--     call the parsers, `IsPort` (ExtraFunc/Port), `IsHostname` (ExtraFunc/Host) and `IsHostAndPort`
--     (ExtraFunc/HostAndPort), which calls these.
--   buf/validate/internal/validation_rules.h, rules.h, rules.cc, proto_field.h  Rules: the context and
--     its violations (Rules/Context, with the methods as functions), paths (Rules/Path), and `Validate`
--     of each class: Rules/Field, Rules/Repeated, Rules/Map, Rules/Oneof. Rules/Kinds is the virtual
--     method, Rules/ProtoField the accessors of a field.
--   buf/validate/internal/cel_validation_rules.h, cel_validation_rules.cc  Rules/Cel: `validate_cel`
--     and what is done with a result.
--   buf/validate/internal/cel_rules.h, field_rules.h, field_rules.cc, message_rules.cc  Rules/Build:
--     how rules come from the options of a message, which are the data of Rules/Options.
--   buf/validate/validator.h, validator.cc  Validator: the walk over a message and the messages in it,
--     and Validator/Result, its answer. Factory: the cache of rules and its locked sections.
--   Proto has the types of protobuf and CEL, and the record `Libraries` of their calls.
-- A `Validator` asks the factory for the rules of a descriptor; the rules work on one `RuleContext`,
-- and the validator appends the path of each message that it goes into. CEL rules call the
-- functions of extra_func.cc, through the CEL library.
-- The parsers of ipv4.cc, ipv6.cc and uri.cc inherit `ParserCommon`, so they use Parser; the IPv6
-- literals of uri.cc are a parser of their own.
--
-- How state is modelled: a `std::string_view` is the list of its bytes, as numbers below 256, and
-- the member `str` is passed on. A method that only reads on is a function to an option of its value
-- and the view behind it; a method that may fail with the view changed, as in uri.cc, returns the
-- Boolean and the view. An `unsigned` is a number with its wrap-around written out; a bitset is a
-- number below 2 ^ 128.
--
-- Code on a `RuleContext` is a function from the context to its value and the context behind it,
-- and a loop with returns is `each` or `for_each`. Messages, descriptors and other objects of
-- protobuf are known by their addresses, and reflection, CEL's values and evaluation,
-- `Activation::InsertValue` and the clock are fields of `Libraries`, of which nothing is assumed.
-- What `ValidateCel` leaves in an activation is passed on, since the entries of a map share one.
-- `GetMessageRules` is an argument of Validator; Factory has it as its two locked sections, with
-- what other threads do between them. It answers the rules themselves, where the code answers a
-- pointer into the map of rules, whose entries may move when the map grows: the lifetime of that
-- pointer is outside the model.
--
-- Bounds and fuel: `scan_loop` and `literal_loop` run on the length of the view and one more, and
-- `skip` likewise: each round that goes on consumes a byte. `digits_loop` has 32 rounds, enough for
-- an `unsigned`. Running out of fuel is a result of its own in Ipv6/Outcome. `validate_message`
-- runs on fuel for messages in messages, with the status for its end as an argument; Validator/Fuel
-- shows how much is enough. `add` of Factory runs on fuel too, for which Factory/Adds counts the
-- descriptors without an entry.
--
-- The grammar of Uri/Sound is RFC 3986's with these differences: the text of an IPv6 literal is any
-- run of hexadecimal digits, colons and dots, with RFC 6874's zone id; a dotted quad is a reg-name.
--
-- `absl::SimpleAtoi` is the parameter `SimpleAtoi` of ExtraFunc/Port, with its documented behaviour
-- on runs of digits; Abseil's string functions are the parameter `Strings` of ExtraFunc/Host, with
-- what they do with a dot or a dash at the start, at the end or in the middle of a text. An
-- `int64_t` argument of a CEL function is its two's complement.
--
-- The setters SetMessageFactory and SetAllowUnknownFields take no lock; the steps of Factory/Steps are
-- without them.
--
-- Not modelled: ValidatorFactory::New and NewRuleBuilder, which set up the CEL library;
-- message_factory.cc, whose `Reparse` is a parameter; `unique`, e-mail addresses, floating-point tests
-- and registration of extra_func.cc, which call CEL, Abseil and RE2; and the conformance runner.
pub mod Base
pub mod Parser
pub mod Ipv4
pub mod Ipv6
pub mod Uri
pub mod ExtraFunc
pub mod Proto
pub mod Rules
pub mod Validator
pub mod Factory
pub mod Tests
