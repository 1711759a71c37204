-- ===== src/ExtraFunc/Ip/Laws.antt =====
-- What isIp and isIpPrefix accept, in terms of the texts and the bits of the host part.
use mathlib.Core.Path.{subst}
use protovalidate_cc.Base.{
  ℕ, ◌+◌, ◌*◌, ◌-◌, ◌%◌, ◌^◌, ◌≤◌, ◌≡◌, refl, ap, ◌↔◌, Bool, true, false, some, ==_iff,
  if◌then◌else◌, arith, Bytes, Option-cases, inl, inr,
}
use protovalidate_cc.ExtraFunc.Ip.{
  ipv4_host_is_zero, ipv6_host_is_zero, is_ipv4_prefix, is_ipv6_prefix, ip_prefix_version,
  CelArgument, cel_int64, cel_bool, cel_other, is_ip_prefix_xy,
}
use protovalidate_cc.Ipv4.Laws.{IsPrefixText, parse_ipv4_prefix_iff}
use protovalidate_cc.Ipv4.Mask.{ipv4_host_bits}
use protovalidate_cc.Ipv4.{Ipv4Prefix, parse_ipv4_prefix}
use protovalidate_cc.Ipv6.Bounds.{PrefixFits, parse_ipv6_prefix-PrefixFits}
use protovalidate_cc.Ipv6.Mask.{ipv6_host_bits}
use protovalidate_cc.Ipv6.Outcome.{Result, ok, failed, out_of_fuel}
use protovalidate_cc.Ipv6.{Ipv6Prefix, parse_ipv6_prefix}

-- Where strict is asked for, no bit is set behind the routing prefix of `length` bits.
abbrev pub HostAllows : (strict : Bool) (width bits length : ℕ) → Type 0
HostAllows true width bits length = bits % 2 ^ (width - length) ≡ 0
HostAllows false width bits length = Unit {0}

host4_iff :
    (strict : Bool) (p : Ipv4Prefix)
    → p.prefix_length ≤ 32
    → ((if strict then ipv4_host_is_zero p else true) ≡ true)
      ↔ HostAllows strict 32 p.bits p.prefix_length
unfolding ipv4_host_is_zero
host4_iff true p h = rw (ipv4_host_bits p h) (==_iff (p.bits % 2 ^ (32 - p.prefix_length)) 0)
host4_iff false p h = (λ _. tt, λ _. refl)

host6_iff :
    (strict : Bool) (p : Ipv6Prefix)
    → p.prefix_length ≤ 128
    → ((if strict then ipv6_host_is_zero p else true) ≡ true)
      ↔ HostAllows strict 128 p.bits p.prefix_length
unfolding ipv6_host_is_zero
host6_iff true p h = rw (ipv6_host_bits p h) (==_iff (p.bits % 2 ^ (128 - p.prefix_length)) 0)
host6_iff false p h = (λ _. tt, λ _. refl)

-- `s` is the text of an IPv4 prefix, with a host part that `strict` allows.
pub record IsIpv4PrefixText (s : Bytes) (strict : Bool) : Type 0 where
  pub prefix : Ipv4Prefix
  pub text : IsPrefixText prefix s
  pub host : HostAllows strict 32 prefix.bits prefix.prefix_length

-- `IsIpv4Prefix` accepts exactly the texts of IPv4 prefixes, and with strict only those whose
-- bits behind the routing prefix are zero.
pub is_ipv4_prefix_iff :
    (s : Bytes) (strict : Bool) → (is_ipv4_prefix s strict ≡ true) ↔ IsIpv4PrefixText s strict
unfolding is_ipv4_prefix
is_ipv4_prefix_iff s strict = (accepted, back)
  where
    accepted : is_ipv4_prefix s strict ≡ true → IsIpv4PrefixText s strict
    accepted h = elim (Option-cases (parse_ipv4_prefix s)) [
      | inl e ↦ absurd (ground arith)
      | inr (p, e) ↦
          let text = (parse_ipv4_prefix_iff s p).0 e in
          record {
            prefix = p;
            text = text;
            host = (host4_iff strict p text.length_le).0 (rw (e, is_ipv4_prefix) at h);
          }
    ]

    back : IsIpv4PrefixText s strict → is_ipv4_prefix s strict ≡ true
    back r =
        rw ((parse_ipv4_prefix_iff s r.prefix).1 r.text, is_ipv4_prefix)
          ((host4_iff strict r.prefix r.text.length_le).1 r.host)

-- `s` is read as an IPv6 prefix, with a host part that `strict` allows.
pub record IsIpv6PrefixText (s : Bytes) (strict : Bool) : Type 0 where
  pub prefix : Ipv6Prefix
  pub read : parse_ipv6_prefix s ≡ ok prefix
  pub host : HostAllows strict 128 prefix.bits prefix.prefix_length

-- `IsIpv6Prefix` accepts exactly what `parseIPv6Prefix` reads, and with strict only where the
-- bits behind the routing prefix are zero.
pub is_ipv6_prefix_iff :
    (s : Bytes) (strict : Bool) → (is_ipv6_prefix s strict ≡ true) ↔ IsIpv6PrefixText s strict
unfolding is_ipv6_prefix
is_ipv6_prefix_iff s strict = (go (parse_ipv6_prefix s) refl (parse_ipv6_prefix-PrefixFits s), back)
  where
    go :
        (r : Result Ipv6Prefix)
        → parse_ipv6_prefix s ≡ r
        → PrefixFits r
        → elim r [
          | ok prefix ↦ if strict then ipv6_host_is_zero prefix else true
          | failed ↦ false
          | out_of_fuel ↦ false
        ]
          ≡ true
        → IsIpv6PrefixText s strict
    go (ok p) e fits h = record { prefix = p; read = e; host = (host6_iff strict p fits.1).0 h }
    go failed e fits h = absurd (ground arith)
    go out_of_fuel e fits h = absurd (ground arith)

    back : IsIpv6PrefixText s strict → is_ipv6_prefix s strict ≡ true
    back r =
        let fits = subst PrefixFits r.read (parse_ipv6_prefix-PrefixFits s) in
        rw (r.read, is_ipv6_prefix) ((host6_iff strict r.prefix fits.1).1 r.host)

-- `isIpPrefix` with a version reads it modulo 2 ^ 32: an `int64_t` whose low 32 bits are 4 is
-- taken for version 4, whatever stands above.
pub is_ip_prefix_xy-mod :
    (s : Bytes) (high version : ℕ) (strict : CelArgument)
    → is_ip_prefix_xy s (cel_int64 (high * 2 ^ 32 + version)) strict
      ≡ is_ip_prefix_xy s (cel_int64 version) strict
unfolding is_ip_prefix_xy
is_ip_prefix_xy-mod s high version (cel_bool strict) =
    let low : (high * 2 ^ 32 + version) % 2 ^ 32 ≡ version % 2 ^ 32 = omega arith in
    ap (λ v. some (ip_prefix_version v strict s)) low
is_ip_prefix_xy-mod s high version (cel_int64 _) = refl
is_ip_prefix_xy-mod s high version cel_other = refl
