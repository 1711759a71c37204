-- ===== src/ExtraFunc/Ip.antt =====
-- isIp and isIpPrefix of buf/validate/internal/extra_func.cc, down to the CEL adapters' arguments.
pub mod Laws
use protovalidate_cc.Base.{
  ℕ, ◌-◌, ◌%◌, ◌^◌, bit_and, Bool, true, false, ◌||◌, Option, none, some, ◌==◌, if◌then◌else◌,
  Bytes,
}
use protovalidate_cc.Ipv4.{Ipv4Prefix, parse_ipv4_address, parse_ipv4_prefix}
use protovalidate_cc.Ipv6.Outcome.{ok, failed, out_of_fuel, has_value}
use protovalidate_cc.Ipv6.{Ipv6Prefix, parse_ipv6_address, parse_ipv6_prefix}

unfoldable pub is_ipv4 : Bytes → Bool
unfolding parse_ipv4_address
is_ipv4 s = elim (parse_ipv4_address s) [ none ↦ false | some _ ↦ true ]

unfoldable pub is_ipv6 : Bytes → Bool
unfolding parse_ipv6_address
is_ipv6 s = has_value (parse_ipv6_address s)

unfoldable pub is_ip : Bytes → Bool
unfolding is_ipv4 is_ipv6
is_ip s = is_ipv4 s || is_ipv6 s

-- `(prefix->bits & ~prefix->mask()) == 0`, on 32 bits and on 128
unfoldable pub ipv4_host_is_zero : Ipv4Prefix → Bool
unfolding protovalidate_cc.Ipv4.mask
ipv4_host_is_zero p = bit_and p.bits (2 ^ 32 - 1 - protovalidate_cc.Ipv4.mask p) == 0

unfoldable pub ipv6_host_is_zero : Ipv6Prefix → Bool
unfolding protovalidate_cc.Ipv6.mask
ipv6_host_is_zero p = bit_and p.bits (2 ^ 128 - 1 - protovalidate_cc.Ipv6.mask p) == 0

unfoldable pub is_ipv4_prefix : Bytes → Bool → Bool
unfolding parse_ipv4_prefix ipv4_host_is_zero
is_ipv4_prefix s strict = elim (parse_ipv4_prefix s) [
  | none ↦ false
  | some prefix ↦ if strict then ipv4_host_is_zero prefix else true
]

unfoldable pub is_ipv6_prefix : Bytes → Bool → Bool
unfolding parse_ipv6_prefix ipv6_host_is_zero
is_ipv6_prefix s strict = elim (parse_ipv6_prefix s) [
  | ok prefix ↦ if strict then ipv6_host_is_zero prefix else true
  | failed ↦ false
  | out_of_fuel ↦ false
]

unfoldable pub is_ip_prefix : Bytes → Bool → Bool
unfolding is_ipv4_prefix is_ipv6_prefix
is_ip_prefix s strict = is_ipv4_prefix s strict || is_ipv6_prefix s strict

-- An argument of a CEL function: an `int64_t` in two's complement, a Boolean, or another value.
pub data CelArgument : Type 0 where
  cel_int64 : ℕ → CelArgument
  cel_bool : Bool → CelArgument
  cel_other : CelArgument

-- `Int64OrDie` and `BoolOrDie`: `none` where the process ends
abbrev pub int64_or_die : CelArgument → Option ℕ
int64_or_die (cel_int64 n) = some n
int64_or_die _ = none

abbrev pub bool_or_die : CelArgument → Option Bool
bool_or_die (cel_bool b) = some b
bool_or_die _ = none

-- the `switch` of `isIPvX`, on the whole `int64_t`
unfoldable pub ip_version : ℕ → Bytes → Bool
unfolding is_ip is_ipv4 is_ipv6
ip_version version s =
    if version == 0
    then is_ip s
    else if version == 4
    then is_ipv4 s
    else if version == 6
    then is_ipv6 s
    else false

unfoldable pub is_ipv_x : Bytes → CelArgument → Option Bool
unfolding ip_version
is_ipv_x s rhs = elim (int64_or_die rhs) [ none ↦ none | some n ↦ some (ip_version n s) ]

-- the `switch` of `isIpPrefixXY`
unfoldable pub ip_prefix_version : ℕ → Bool → Bytes → Bool
unfolding is_ip_prefix is_ipv4_prefix is_ipv6_prefix
ip_prefix_version version strict s =
    if version == 0
    then is_ip_prefix s strict
    else if version == 4
    then is_ipv4_prefix s strict
    else if version == 6
    then is_ipv6_prefix s strict
    else false

-- `int ver = rhs1.Int64OrDie()` keeps the low 32 bits.
unfoldable pub is_ip_prefix_xy : Bytes → CelArgument → CelArgument → Option Bool
unfolding ip_prefix_version
is_ip_prefix_xy s rhs1 rhs2 = elim (int64_or_die rhs1) [
  | none ↦ none
  | some n ↦ elim (bool_or_die rhs2) [
    | none ↦ none
    | some strict ↦ some (ip_prefix_version (n % 2 ^ 32) strict s)
  ]
]

unfoldable pub is_ip_prefix_x : Bytes → CelArgument → Option Bool
unfolding is_ip_prefix_xy
is_ip_prefix_x s (cel_bool b) = is_ip_prefix_xy s (cel_int64 0) (cel_bool b)
is_ip_prefix_x s rhs = is_ip_prefix_xy s rhs (cel_bool false)

-- the adapters without a version, or without strict
unfoldable pub is_ip_any : Bytes → Option Bool
unfolding is_ipv_x
is_ip_any s = is_ipv_x s (cel_int64 0)

unfoldable pub is_ip_prefix_any : Bytes → Option Bool
unfolding is_ip_prefix_xy
is_ip_prefix_any s = is_ip_prefix_xy s (cel_int64 0) (cel_bool false)
