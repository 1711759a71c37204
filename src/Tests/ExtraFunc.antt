-- ===== src/Tests/ExtraFunc.antt =====
-- The checks of extra_func.cc at concrete inputs.
use protovalidate_cc.Base.{
  ℕ, ap, arith, ◌++◌, ◌≢◌, ◌≡◌, ◌↔◌, ◌+◌, ◌*◌, ◌^◌, refl, true, false, Option, none, some, ltb,
  ◌==◌, Bool, List, [], ◌∷◌, Bytes, if◌then◌else◌, codes,
}
use protovalidate_cc.ExtraFunc.Host.Laws.{IsHostnameText, is_hostname_iff}
use protovalidate_cc.ExtraFunc.Host.{NoDot, Strings, is_hostname}
use protovalidate_cc.ExtraFunc.HostAndPort.Laws.{HasPort, is_host_and_port-is_port}
use protovalidate_cc.ExtraFunc.HostAndPort.{is_host_and_port}
use protovalidate_cc.ExtraFunc.Ip.Laws.{
  IsIpv4PrefixText, is_ipv4_prefix_iff, IsIpv6PrefixText, is_ipv6_prefix_iff, is_ip_prefix_xy-mod,
}
use protovalidate_cc.ExtraFunc.Ip.{
  is_ipv4_prefix, is_ipv6_prefix, cel_int64, cel_bool, is_ip_prefix_xy, is_ip_prefix_any,
}
use protovalidate_cc.ExtraFunc.Port.Laws.{IsPortText, is_port_iff}
use protovalidate_cc.ExtraFunc.Port.{SimpleAtoi, is_port}
use protovalidate_cc.Parser.Number.Decimal.{decimal_value}
use protovalidate_cc.Parser.Number.Loop.{digits_value}

runs :
    (is_ipv4_prefix (codes "10.0.0.0/8") true ≡ true)
    × (is_ipv4_prefix (codes "10.0.0.1/8") true ≡ false)
    × (is_ipv4_prefix (codes "10.0.0.1/8") false ≡ true)
    × (is_ipv6_prefix (codes "2001:db8::/32") true ≡ true)
    × (is_ipv6_prefix (codes "2001:db8::1/32") true ≡ false)
    × (is_ip_prefix_any (codes "2001:db8::1/32") ≡ some true)
unfolding is_ipv4_prefix is_ipv6_prefix is_ip_prefix_any
runs = (refl, refl, refl, refl, refl, refl)

is_ipv4_prefix_iff_example :
    (is_ipv4_prefix (codes "10.0.0.0/8") true ≡ true) ↔ IsIpv4PrefixText (codes "10.0.0.0/8") true
is_ipv4_prefix_iff_example = is_ipv4_prefix_iff (codes "10.0.0.0/8") true

is_ipv6_prefix_iff_example :
    (is_ipv6_prefix (codes "2001:db8::/32") true ≡ true)
    ↔ IsIpv6PrefixText (codes "2001:db8::/32") true
is_ipv6_prefix_iff_example = is_ipv6_prefix_iff (codes "2001:db8::/32") true

is_ip_prefix_xy-mod_example :
    is_ip_prefix_xy (codes "10.0.0.0/8") (cel_int64 (1 * 2 ^ 32 + 4)) (cel_bool true)
    ≡ is_ip_prefix_xy (codes "10.0.0.0/8") (cel_int64 4) (cel_bool true)
is_ip_prefix_xy-mod_example = is_ip_prefix_xy-mod (codes "10.0.0.0/8") 1 4 (cel_bool true)

-- A conversion that does as it is documented.
abbrev bounded : Option ℕ → Option ℕ
bounded none = none
bounded (some v) = if ltb v (2 ^ 32) then some v else none

abbrev atoi : SimpleAtoi
atoi = record { convert = λ s. bounded (decimal_value 0 s); converts = λ c text v h. rw h refl }

is_port_iff_example : (is_port atoi (codes "8080") ≡ true) ↔ IsPortText (codes "8080")
is_port_iff_example = is_port_iff atoi (codes "8080")

abbrev strip_dot : Bytes → Bytes
strip_dot [] = []
strip_dot (c ∷ []) = if c == b'.' then [] else (c ∷ [])
strip_dot (c ∷ d ∷ s) = c ∷ strip_dot (d ∷ s)

abbrev onto_first : ℕ → List Bytes → List Bytes
onto_first c [] = (c ∷ []) ∷ []
onto_first c (part ∷ parts) = (c ∷ part) ∷ parts

abbrev split_dots : Bytes → List Bytes
split_dots [] = [] ∷ []
split_dots (c ∷ s) =
    let parts = split_dots s in if c == b'.' then ([] ∷ parts) else onto_first c parts

abbrev starts_with_dash : Bytes → Bool
starts_with_dash [] = false
starts_with_dash (c ∷ s) = c == b'-'

abbrev ends_with_dash : Bytes → Bool
ends_with_dash [] = false
ends_with_dash (c ∷ []) = c == b'-'
ends_with_dash (c ∷ d ∷ s) = ends_with_dash (d ∷ s)

no_dot : (c : ℕ) → c ≢ b'.' → (c == b'.') ≡ false
no_dot c other = ground arith

strip_dot_strips : (s : Bytes) → strip_dot (s ++ (b'.' ∷ [])) ≡ s
strip_dot_strips [] = refl
strip_dot_strips (c ∷ []) = refl
strip_dot_strips (c ∷ d ∷ s) = ap (λ t. c ∷ t) (strip_dot_strips (d ∷ s))

strip_dot_keeps : (s : Bytes) (c : ℕ) → c ≢ b'.' → strip_dot (s ++ (c ∷ [])) ≡ s ++ (c ∷ [])
strip_dot_keeps [] c other = rw (no_dot c other) refl
strip_dot_keeps (d ∷ []) c other = ap (λ t. d ∷ t) (strip_dot_keeps [] c other)
strip_dot_keeps (d ∷ e ∷ s) c other = ap (λ t. d ∷ t) (strip_dot_keeps (e ∷ s) c other)

split_dots_whole : (s : Bytes) → NoDot s → split_dots s ≡ s ∷ []
split_dots_whole [] h = refl
split_dots_whole (c ∷ s) (other, h) = rw (no_dot c other) (ap (onto_first c) (split_dots_whole s h))

split_dots_splits :
    (part s : Bytes) → NoDot part → split_dots (part ++ (b'.' ∷ s)) ≡ part ∷ split_dots s
split_dots_splits [] s h = refl
split_dots_splits (c ∷ part) s (other, h) =
    rw (no_dot c other) (ap (onto_first c) (split_dots_splits part s h))

ends_with_dash_ends : (s : Bytes) (c : ℕ) → ends_with_dash (s ++ (c ∷ [])) ≡ (c == b'-')
ends_with_dash_ends [] c = refl
ends_with_dash_ends (d ∷ []) c = refl
ends_with_dash_ends (d ∷ e ∷ s) c = ends_with_dash_ends (e ∷ s) c

-- Functions that do as Abseil's are documented.
abbrev strings : Strings
strings = record {
  strip_dot = strip_dot;
  split_dots = split_dots;
  starts_with_dash = starts_with_dash;
  ends_with_dash = ends_with_dash;
  strips = strip_dot_strips;
  keeps = strip_dot_keeps;
  no_split = split_dots_whole;
  splits = split_dots_splits;
  starts = λ s c. refl;
  ends = ends_with_dash_ends;
}

hostnames :
    (is_hostname strings (codes "a-b.example.com.") ≡ true)
    × (is_hostname strings (codes "1.2.3.4") ≡ false)
    × (is_hostname strings (codes "-a.com") ≡ false)
    × (is_hostname strings (codes "a..com") ≡ false)
unfolding is_hostname
hostnames = (refl, refl, refl, refl)

is_hostname_iff_example :
    (is_hostname strings (codes "example.com") ≡ true) ↔ IsHostnameText (codes "example.com")
is_hostname_iff_example = is_hostname_iff strings (codes "example.com")

host_and_port_runs :
    (is_host_and_port strings atoi (codes "[::1]:80") true ≡ true)
    × (is_host_and_port strings atoi (codes "[::1]") true ≡ false)
    × (is_host_and_port strings atoi (codes "[::1]") false ≡ true)
    × (is_host_and_port strings atoi (codes "10.0.0.1:8080") true ≡ true)
    × (is_host_and_port strings atoi (codes "[") false ≡ false)
unfolding is_host_and_port digits_value
host_and_port_runs = (refl, refl, refl, refl, refl)

is_host_and_port-is_port_example : HasPort strings atoi (codes "[::1]:80")
unfolding is_host_and_port digits_value
is_host_and_port-is_port_example = is_host_and_port-is_port strings atoi (codes "[::1]:80") refl
