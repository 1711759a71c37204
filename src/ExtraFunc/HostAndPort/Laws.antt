-- ===== src/ExtraFunc/HostAndPort/Laws.antt =====
-- The port that IsHostAndPort of buf/validate/internal/extra_func.cc finds.
use mathlib.Core.Path.{subst}
use protovalidate_cc.Base.{
  and-true, ℕ, zero, suc, ◌-◌, ◌≡◌, refl, ap, sym, ◌∙◌, Bool, true, false, ◌&&◌, Option, none, some,
  [], ◌∷◌, ◌++◌, ◌==◌, if◌then◌else◌, Bytes, length, drop, arith, ==_iff,
}
use protovalidate_cc.ExtraFunc.Host.{Strings}
use protovalidate_cc.ExtraFunc.HostAndPort.{
  rfind, take, after, is_host, is_literal_and_port, is_name_and_port, is_host_and_port,
}
use protovalidate_cc.ExtraFunc.Ip.{is_ipv6}
use protovalidate_cc.ExtraFunc.Port.{SimpleAtoi, is_port}

-- the byte that is found stands at its place
rfind-take : (c : ℕ) (s : Bytes) (i : ℕ) → rfind c s ≡ some i → s ≡ take i s ++ (c ∷ drop (suc i) s)
unfolding rfind
rfind-take c [] i e = ground arith
rfind-take c (d ∷ s) i e = go (rfind c s) (rfind-take c s) e
  where
    first : (j : ℕ) → 0 ≡ j → d ≡ c → d ∷ s ≡ take j (d ∷ s) ++ (c ∷ drop (suc j) (d ∷ s))
    first zero e' e'' = ap (λ b. b ∷ s) e''
    first (suc j) e' e'' = ground arith

    last :
        (b : Bool)
        → (d == c) ≡ b
        → (if b then some 0 else none) ≡ some i
        → d ∷ s ≡ take i (d ∷ s) ++ (c ∷ drop (suc i) (d ∷ s))
    last true e' e'' = first i (ground arith) ((==_iff d c).0 e')
    last false e' e'' = ground arith

    later :
        (j k : ℕ)
        → suc j ≡ k
        → s ≡ take j s ++ (c ∷ drop (suc j) s)
        → d ∷ s ≡ take k (d ∷ s) ++ (c ∷ drop (suc k) (d ∷ s))
    later j k e' h =
        subst (λ n. d ∷ s ≡ take n (d ∷ s) ++ (c ∷ drop (suc n) (d ∷ s))) e' (ap (λ t. d ∷ t) h)

    go :
        (x : Option ℕ)
        → ((j : ℕ) → x ≡ some j → s ≡ take j s ++ (c ∷ drop (suc j) s))
        → elim x as (λ _. Option ℕ) [
          | some j ↦ some (suc j)
          | none ↦ if d == c then some 0 else none
        ]
          ≡ some i
        → d ∷ s ≡ take i (d ∷ s) ++ (c ∷ drop (suc i) (d ∷ s))
    go none h e' = last (d == c) refl e'
    go (some j) h e' = later j i (ground arith) (h j refl)

module _ (strings : Strings) (atoi : SimpleAtoi) where
  -- a text with a port behind a colon
  abbrev pub HasPort : Bytes → Type 0
  HasPort s =
      (host : Bytes) × ((port : Bytes) × ((s ≡ host ++ (b':' ∷ port)) × (is_port atoi port ≡ true)))

  at_colon :
      (s : Bytes) (i : ℕ) → rfind b':' s ≡ some i → is_port atoi (drop (suc i) s) ≡ true → HasPort s
  at_colon s i e e' = (take i s, (drop (suc i) s, (rfind-take b':' s i e, e')))

  name-HasPort :
      (s : Bytes) (split : Option ℕ)
      → rfind b':' s ≡ split
      → is_name_and_port strings atoi s split true ≡ true
      → HasPort s
  unfolding is_name_and_port
  name-HasPort s none e e' = ground arith
  name-HasPort s (some i) e e' =
      at_colon s i e
        (and-true (is_host strings atoi (take i s)) (is_port atoi (drop (suc i) s)) e').1

  literal-HasPort :
      (s : Bytes) (end split : Option ℕ)
      → rfind b':' s ≡ split
      → is_literal_and_port strings atoi s end split true ≡ true
      → HasPort s
  unfolding is_literal_and_port
  literal-HasPort s end none e e' = absurd (no (after end == length s) e')
    where
      no : (b : Bool) → ¬ ((if b then false else false) ≡ true)
      no true = λ h. ground arith
      no false = λ h. ground arith
  literal-HasPort s end (some i) e e' = go (after end == length s) (after end == i) refl e'
    where
      host : Bool
      host = is_ipv6 (take (after end - 2) (drop 1 s))

      go :
          (b b' : Bool)
          → (after end == i) ≡ b'
          → (if b
              then false
              else if b'
              then host && is_port atoi (drop (suc (after end)) s)
              else false)
            ≡ true
          → HasPort s
      go true b' h h' = ground arith
      go false false h h' = ground arith
      go false true h h' = at_colon s i e (
          ap (λ k. is_port atoi (drop (suc k) s)) (sym ((==_iff (after end) i).0 h))
          ∙ (and-true host (is_port atoi (drop (suc (after end)) s)) h').1)

  -- Where the port is required, `IsHostAndPort` accepts only texts with a colon that a text
  -- follows which `IsPort` accepts.
  pub is_host_and_port-is_port :
      (s : Bytes) → is_host_and_port strings atoi s true ≡ true → HasPort s
  unfolding is_host_and_port
  is_host_and_port-is_port [] e = ground arith
  is_host_and_port-is_port (c ∷ s) e = go (c == b'[') e
    where
      go :
          (b : Bool)
          → (if b
              then is_literal_and_port strings atoi
                  (c ∷ s)
                  (rfind b']' (c ∷ s))
                  (rfind b':' (c ∷ s))
                  true
              else is_name_and_port strings atoi (c ∷ s) (rfind b':' (c ∷ s)) true)
            ≡ true
          → HasPort (c ∷ s)
      go true = literal-HasPort (c ∷ s) (rfind b']' (c ∷ s)) (rfind b':' (c ∷ s)) refl
      go false = name-HasPort (c ∷ s) (rfind b':' (c ∷ s)) refl
