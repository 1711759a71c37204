-- ===== src/ExtraFunc/Host/Dots.antt =====
-- The parts of a text between its dots, and its last byte: the loop's input in IsHostname of
-- buf/validate/internal/extra_func.cc.
use protovalidate_cc.Base.{
  ℕ, ◌≡◌, ◌≢◌, refl, ap, sym, ◌∙◌, ◌⊎◌, inl, inr, List, [], ◌∷◌, ◌++◌, append_assoc, ==_iff, ◌==◌,
  true, false, Bool-cases, Bytes, arith,
}
use protovalidate_cc.ExtraFunc.Host.{NoDot, Strings}
use mathlib.Core.Path.{subst}

-- parts with a dot between each and the next
abbrev pub join : Bytes → List Bytes → Bytes
join first [] = first
join first (part ∷ parts) = first ++ (b'.' ∷ join part parts)

abbrev pub NoDots : List Bytes → Type 0
NoDots [] = Unit {0}
NoDots (part ∷ parts) = NoDot part × NoDots parts

-- a text by its parts
pub record DotParts (s : Bytes) : Type 0 where
  pub first : Bytes
  pub more : List Bytes
  pub joins : s ≡ join first more
  pub no_dots : NoDots (first ∷ more)

onto_first :
    (c : ℕ) (first : Bytes) (more : List Bytes) → c ∷ join first more ≡ join (c ∷ first) more
onto_first c first [] = refl
onto_first c first (part ∷ parts) = refl

pub parts_of : (s : Bytes) → DotParts s
parts_of [] = record { first = []; more = []; joins = refl; no_dots = (tt, tt) }
parts_of (c ∷ s) = go (Bool-cases (c == b'.')) (parts_of s)
  where
    go : ((c == b'.') ≡ true) ⊎ ((c == b'.') ≡ false) → DotParts s → DotParts (c ∷ s)
    go (inl dot) p = record {
      first = [];
      more = p.first ∷ p.more;
      joins = ap (λ d. d ∷ s) ((==_iff c b'.').0 dot) ∙ ap (λ t. b'.' ∷ t) p.joins;
      no_dots = (tt, p.no_dots);
    }
    go (inr other) p = record {
      first = c ∷ p.first;
      more = p.more;
      joins = ap (λ t. c ∷ t) p.joins ∙ onto_first c p.first p.more;
      no_dots = ((ground arith, p.no_dots.0), p.no_dots.1);
    }

-- a text is empty, or it has a last byte
pub last_byte : (s : Bytes) → (s ≡ []) ⊎ ((t : Bytes) × (c : ℕ) × (s ≡ t ++ (c ∷ [])))
last_byte [] = inl refl
last_byte (c ∷ s) = go (last_byte s)
  where
    go :
        (s ≡ []) ⊎ ((t : Bytes) × (d : ℕ) × (s ≡ t ++ (d ∷ [])))
        → (c ∷ s ≡ []) ⊎ ((t : Bytes) × (d : ℕ) × (c ∷ s ≡ t ++ (d ∷ [])))
    go (inl e) = inr ([], c, ap (λ t. c ∷ t) e)
    go (inr (t, d, e)) = inr (c ∷ t, d, ap (λ u. c ∷ u) e)

NoDot-last : (t : Bytes) (c : ℕ) → NoDot (t ++ (c ∷ [])) → c ≢ b'.'
NoDot-last [] c h = h.0
NoDot-last (d ∷ t) c h = NoDot-last t c h.1

-- no part is empty
abbrev pub NoneEmpty : List Bytes → Type 0
NoneEmpty [] = Unit {0}
NoneEmpty (part ∷ parts) = (part ≢ []) × NoneEmpty parts

-- The last byte of parts that are not empty is no dot.
join-last :
    (first : Bytes) (more : List Bytes)
    → NoDots (first ∷ more)
    → NoneEmpty (first ∷ more)
    → (t : Bytes) × (c : ℕ) × ((join first more ≡ t ++ (c ∷ [])) × (c ≢ b'.'))
join-last first [] h n = elim (last_byte first) [
  | inl e ↦ absurd (n.0 e)
  | inr (t, c, e) ↦ (t, c, (e, NoDot-last t c (subst NoDot e h.0)))
]
join-last first (part ∷ parts) h n =
    let (t, c, (e, other)) = join-last part parts h.1 n.1 in
    (
      first ++ (b'.' ∷ t),
      c,
      (ap (λ u. first ++ (b'.' ∷ u)) e ∙ sym (append_assoc first (b'.' ∷ t) (c ∷ [])), other),
    )

module _ (strings : Strings) where
  pub split_dots-join :
      (first : Bytes) (more : List Bytes)
      → NoDots (first ∷ more)
      → strings.split_dots (join first more) ≡ first ∷ more
  split_dots-join first [] h = strings.no_split first h.0
  split_dots-join first (part ∷ parts) h =
      strings.splits first (join part parts) h.0
      ∙ ap (λ ps. first ∷ ps) (split_dots-join part parts h.1)

  pub strip_dot-join :
      (first : Bytes) (more : List Bytes)
      → NoDots (first ∷ more)
      → NoneEmpty (first ∷ more)
      → strings.strip_dot (join first more) ≡ join first more
  strip_dot-join first more h n =
      let (t, c, (e, other)) = join-last first more h n in
      subst (λ s. strings.strip_dot s ≡ s) (sym e) (strings.keeps t c other)

  -- What is left of a text is the text, or what stands in front of the dot at its end.
  pub strip_dot_cases :
      (s : Bytes) → s ≢ [] → (s ≡ strings.strip_dot s) ⊎ (s ≡ strings.strip_dot s ++ (b'.' ∷ []))
  strip_dot_cases s nonempty = elim (last_byte s) [
    | inl e ↦ absurd (nonempty e)
    | inr (t, c, e) ↦ elim (Bool-cases (c == b'.')) [
      | inl dot ↦ inr (
          let e' = e ∙ ap (λ d. t ++ (d ∷ [])) ((==_iff c b'.').0 dot) in
          e' ∙ ap (λ u. u ++ (b'.' ∷ [])) (sym (ap strings.strip_dot e' ∙ strings.strips t)))
      | inr other ↦ inl (e ∙ sym (ap strings.strip_dot e ∙ strings.keeps t c (ground arith)))
    ]
  ]
