-- ===== src/ExtraFunc/HostAndPort.antt =====
-- IsHostAndPort of buf/validate/internal/extra_func.cc.
pub mod Laws
use protovalidate_cc.Base.{
  ℕ, zero, suc, ◌-◌, ◌+◌, Bool, true, false, not, ◌&&◌, ◌||◌, Option, none, some, List, [], ◌∷◌,
  ◌==◌, if◌then◌else◌, Bytes, length, drop,
}
use protovalidate_cc.ExtraFunc.Host.{Strings, is_hostname}
use protovalidate_cc.ExtraFunc.Ip.{is_ipv4, is_ipv6}
use protovalidate_cc.ExtraFunc.Port.{SimpleAtoi, is_port}

-- `std::string_view::rfind`; `none` is `npos`
unfoldable pub rfind : ℕ → Bytes → Option ℕ
rfind c [] = none
rfind c (d ∷ s) = elim (rfind c s) [
  | some i ↦ some (suc i)
  | none ↦ if d == c then some 0 else none
]

-- `str.substr(0, count)`
abbrev pub take : ℕ → Bytes → Bytes
take zero s = []
take (suc n) [] = []
take (suc n) (c ∷ s) = c ∷ take n s

-- `end + 1`, where `npos` wraps around to 0
abbrev pub after : Option ℕ → ℕ
after none = 0
after (some i) = suc i

-- `== splitIdx`
abbrev pub is_at : ℕ → Option ℕ → Bool
is_at i none = false
is_at i (some j) = i == j

-- `str.substr(pos, count)`
abbrev pub substr : ℕ → ℕ → Bytes → Bytes
substr pos count s = take count (drop pos s)

module _ (strings : Strings) (atoi : SimpleAtoi) where
  -- a host that is no IPv6 literal
  abbrev pub is_host : Bytes → Bool
  is_host s = is_hostname strings s || is_ipv4 s

  -- the branch for `[`. With no `]` neither test holds.
  unfoldable pub is_literal_and_port : Bytes → Option ℕ → Option ℕ → Bool → Bool
  unfolding is_ipv6 is_port
  is_literal_and_port s end split port_required =
      let host = substr 1 (after end - 2) s in
      if after end == length s
      then not port_required && is_ipv6 host
      else if is_at (after end) split
      then is_ipv6 host && is_port atoi (drop (suc (after end)) s)
      else false

  -- the rest, by the last colon
  unfoldable pub is_name_and_port : Bytes → Option ℕ → Bool → Bool
  unfolding is_hostname is_ipv4 is_port
  is_name_and_port s none port_required = not port_required && is_host s
  is_name_and_port s (some i) port_required = is_host (take i s) && is_port atoi (drop (suc i) s)

  -- `IsHostAndPort`
  unfoldable pub is_host_and_port : Bytes → Bool → Bool
  unfolding is_literal_and_port is_name_and_port rfind
  is_host_and_port [] port_required = false
  is_host_and_port (c ∷ s) port_required =
      if c == b'['
      then is_literal_and_port (c ∷ s) (rfind b']' (c ∷ s)) (rfind b':' (c ∷ s)) port_required
      else is_name_and_port (c ∷ s) (rfind b':' (c ∷ s)) port_required
