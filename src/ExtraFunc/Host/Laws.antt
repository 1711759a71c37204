-- ===== src/ExtraFunc/Host/Laws.antt =====
-- A host name is a text of 1 to 253 bytes whose labels are all labels, the last one not a number.
use protovalidate_cc.Base.{
  ◌≡◌, refl, ◌∙◌, Bool, true, false, not, ◌&&◌, ◌||◌, none, some, List, [], ◌∷◌, ◌++◌, ap, sym,
  length-append, ◌↔◌, ◌⊎◌, ◌≤◌, ◌==◌, leb, ltb, if◌then◌else◌, arith, Bytes, length, Bool-cases,
  inl, inr,
}
use protovalidate_cc.ExtraFunc.Host.Dots.{
  join, parts_of, split_dots-join, strip_dot-join, strip_dot_cases,
}
use protovalidate_cc.ExtraFunc.Host.Labels.{
  every, Every, is_digit, IsDigit, IsLabel, every-is_digit, labels-NoDots, labels-NoneEmpty,
  is_label, every-is_label,
}
use protovalidate_cc.ExtraFunc.Host.{
  Strings, is_label_char, label_loop, is_bad_label, labels_loop, is_hostname,
}

-- The inner loop tells whether all characters are allowed, and whether all are digits.
label_loop-every :
    (s : Bytes) (digits : Bool)
    → label_loop s digits
      ≡ (if every is_label_char s then some (digits && every is_digit s) else none)
unfolding label_loop
label_loop-every [] true = refl
label_loop-every [] false = refl
label_loop-every (c ∷ cs) digits = elim (Bool-cases (is_label_char c)) [
  | inl fine ↦ rw fine (label_loop-every cs (digits && is_digit c) ∙ regroup digits (is_digit c))
  | inr other ↦ rw other refl
]
  where
    regroup :
        (a b : Bool)
        → (if every is_label_char cs then some ((a && b) && every is_digit cs) else none)
          ≡ (if every is_label_char cs then some (a && (b && every is_digit cs)) else none)
    regroup true b = refl
    regroup false b = refl

-- the last one of one or more parts
abbrev pub last_label : Bytes → List Bytes → Bytes
last_label first [] = first
last_label first (part ∷ parts) = last_label part parts

-- Labels with a dot between each and the next, and perhaps a dot behind the last one, which is not
-- a number; at most 253 bytes in all.
pub record IsHostnameText (s : Bytes) : Type 0 where
  pub first : Bytes
  pub more : List Bytes
  pub joins : (s ≡ join first more) ⊎ (s ≡ join first more ++ (b'.' ∷ []))
  pub labels : Every IsLabel (first ∷ more)
  pub no_number : Every IsDigit (last_label first more) → ⊥
  pub bounded : length s ≤ 253

module _ (strings : Strings) where
  -- whether the last label is a number, and `otherwise` where there is no label
  abbrev pub last_is_number : List Bytes → Bool → Bool
  last_is_number [] otherwise = otherwise
  last_is_number (part ∷ parts) otherwise = last_is_number parts (every is_digit part)

  labels_loop-every :
      (parts : List Bytes) (digits : Bool)
      → labels_loop strings parts digits
        ≡ (if every (is_label strings) parts then some (last_is_number parts digits) else none)
  unfolding labels_loop
  labels_loop-every [] digits = refl
  labels_loop-every (part ∷ parts) digits = elim (Bool-cases (is_bad_label strings part)) [
    | inl bad ↦ rw bad refl
    | inr good ↦
        rw good (
          rw (label_loop-every part true) (go (every is_label_char part) (labels_loop-every parts)))
  ]
    where
      go :
          (b : Bool)
          → ((digits : Bool)
              → labels_loop strings parts digits ≡ (
                  if every (is_label strings) parts
                  then some (last_is_number parts digits)
                  else none))
          → elim (if b then some (true && every is_digit part) else none) [
            | none ↦ none
            | some digits ↦ labels_loop strings parts digits
          ]
            ≡ (if (b && every (is_label strings) parts)
                then some (last_is_number parts (every is_digit part))
                else none)
      go true ih = ih (every is_digit part)
      go false ih = refl

  -- what `IsHostname` computes, by its loops' answers
  is_hostname-every :
      (s : Bytes)
      → let parts = strings.split_dots (strings.strip_dot s) in
        is_hostname strings s ≡ (
          leb 1 (length s)
          && leb (length s) 253
          && every (is_label strings) parts
          && not (last_is_number parts false))
  unfolding is_hostname
  is_hostname-every s =
      let parts = strings.split_dots (strings.strip_dot s) in
      rw (labels_loop-every parts false)
        (go (every (is_label strings) parts) (last_is_number parts false))
    where
      go :
          (all last : Bool)
          → (if length s == 0 || ltb 253 (length s)
              then false
              else elim (if all then some last else none) [
                | none ↦ false
                | some all_digits ↦ not all_digits
              ])
            ≡ (leb 1 (length s) && leb (length s) 253 && all && not last)
      go true last = ground arith
      go false last = ground arith

  four_tests :
      (s : Bytes) (all last : Bool)
      → (leb 1 (length s) && leb (length s) 253 && all && not last) ≡ true
      → (1 ≤ length s) × ((length s ≤ 253) × ((all ≡ true) × (last ≡ false)))
  four_tests s true true e = absurd (ground arith)
  four_tests s true false e = ground arith
  four_tests s false last e = absurd (ground arith)

  all_tests :
      (s : Bytes) (all last : Bool)
      → 1 ≤ length s
      → length s ≤ 253
      → all ≡ true
      → last ≡ false
      → (leb 1 (length s) && leb (length s) 253 && all && not last) ≡ true
  all_tests s all last some_byte few a l = ground arith

  not_both : true ≡ false → ⊥
  not_both e = ground arith

  length-join : (first : Bytes) (more : List Bytes) → length first ≤ length (join first more)
  length-join first [] = omega arith
  length-join first (part ∷ parts) = omega (arith, length-append first (b'.' ∷ join part parts))

  last_is_number-last_label :
      (first : Bytes) (more : List Bytes) (b : Bool)
      → last_is_number (first ∷ more) b ≡ every is_digit (last_label first more)
  last_is_number-last_label first [] b = refl
  last_is_number-last_label first (part ∷ parts) b =
      last_is_number-last_label part parts (every is_digit first)

  is_hostname_sound : (s : Bytes) → is_hostname strings s ≡ true → IsHostnameText s
  is_hostname_sound s e =
      let p = parts_of (strings.strip_dot s) in
      let parts : strings.split_dots (strings.strip_dot s) ≡ p.first ∷ p.more =
        ap strings.split_dots p.joins ∙ split_dots-join strings p.first p.more p.no_dots in
      let (some_byte, (few, (fine, last))) =
        four_tests s (every (is_label strings) (p.first ∷ p.more))
          (last_is_number (p.first ∷ p.more) false) (rw parts at (sym (is_hostname-every s) ∙ e)) in
      record {
        first = p.first;
        more = p.more;
        joins =
            elim (strip_dot_cases strings s
              (λ nothing. absurd (omega (arith, ap length nothing)))) [
                | inl same ↦ inl (same ∙ p.joins)
                | inr dot ↦ inr (dot ∙ ap (λ t. t ++ (b'.' ∷ [])) p.joins)
              ];
        labels = (every-is_label strings (p.first ∷ p.more)).0 fine;
        no_number = λ digits. not_both (
            sym ((every-is_digit (last_label p.first p.more)).1 digits)
            ∙ (sym (last_is_number-last_label p.first p.more false) ∙ last));
        bounded = few;
      }

  is_hostname_complete : (s : Bytes) → IsHostnameText s → is_hostname strings s ≡ true
  is_hostname_complete s h =
      let no_dots = labels-NoDots (h.first ∷ h.more) h.labels in
      let none_empty = labels-NoneEmpty (h.first ∷ h.more) h.labels in
      let stripped : strings.strip_dot s ≡ join h.first h.more = elim h.joins [
        | inl e ↦ ap strings.strip_dot e ∙ strip_dot-join strings h.first h.more no_dots none_empty
        | inr e ↦ ap strings.strip_dot e ∙ strings.strips (join h.first h.more)
      ] in
      let parts = ap strings.split_dots stripped ∙ split_dots-join strings h.first h.more no_dots in
      let long = length-join h.first h.more in
      let some_byte : 1 ≤ length s = elim h.joins [
        | inl e ↦ omega (arith, ap length e, long, h.labels.0.some_byte)
        | inr e ↦ omega (arith, ap length e, length-append (join h.first h.more) (b'.' ∷ []))
      ] in
      let fine = (every-is_label strings (h.first ∷ h.more)).1 h.labels in
      let last : every is_digit (last_label h.first h.more) ≡ false =
        elim (Bool-cases (every is_digit (last_label h.first h.more))) [
          | inl digits ↦
              absurd (h.no_number ((every-is_digit (last_label h.first h.more)).0 digits))
          | inr other ↦ other
        ] in
      is_hostname-every s
      ∙ rw parts (
          all_tests s _ _ some_byte h.bounded fine
            (last_is_number-last_label h.first h.more false ∙ last))

  -- `IsHostname` accepts exactly the texts of at most 253 bytes that are labels with a dot
  -- between each and the next, and perhaps a dot behind the last one, where a label is 1 to 63
  -- letters, digits and dashes with a dash at neither end and the last label has a byte that is
  -- no digit; the functions of Abseil do as they are documented.
  pub is_hostname_iff : (s : Bytes) → (is_hostname strings s ≡ true) ↔ IsHostnameText s
  is_hostname_iff s = (is_hostname_sound s, is_hostname_complete s)
