-- ===== src/ExtraFunc/Host/Labels.antt =====
-- The labels of a host name, without the code's tests: IsHostname of
-- buf/validate/internal/extra_func.cc.
use protovalidate_cc.Base.{
  and-true, ℕ, ◌≡◌, ◌≢◌, ◌≤◌, refl, ap, sym, ◌∙◌, ◌⊎◌, ◌↔◌, inl, inr, List, [], ◌∷◌, ◌++◌, ◌==◌,
  ==_iff, Bool, true, false, not, ◌&&◌, Bool-cases, within, Bytes, length, arith,
}
use protovalidate_cc.ExtraFunc.Host.Dots.{NoDots, NoneEmpty, last_byte}
use protovalidate_cc.ExtraFunc.Host.{NoDot, Strings, is_label_char, is_bad_label}

abbrev pub every {ℓ} : {A : Type ℓ} → (A → Bool) → List A → Bool
every p [] = true
every p (x ∷ xs) = p x && every p xs

abbrev pub Every {ℓ κ} : {A : Type ℓ} → (A → Type κ) → List A → Type κ
Every P [] = Unit
Every P (x ∷ xs) = P x × Every P xs

abbrev pub is_digit : ℕ → Bool
is_digit = within b'0' b'9'

abbrev pub IsDigit : ℕ → Type 0
IsDigit c = (b'0' ≤ c) × (c ≤ b'9')

abbrev pub IsLetter : ℕ → Type 0
IsLetter c = ((b'a' ≤ c) × (c ≤ b'z')) ⊎ ((b'A' ≤ c) × (c ≤ b'Z'))

abbrev pub IsLabelChar : ℕ → Type 0
IsLabelChar c = IsLetter c ⊎ (IsDigit c ⊎ (c ≡ b'-'))

-- 1 to 63 letters, digits and dashes, with a dash at neither end
pub record IsLabel (part : Bytes) : Type 0 where
  pub some_byte : 1 ≤ length part
  pub bounded : length part ≤ 63
  pub chars : Every IsLabelChar part
  pub no_dash_first : (s : Bytes) → part ≢ b'-' ∷ s
  pub no_dash_last : (s : Bytes) → part ≢ s ++ (b'-' ∷ [])

every_iff {ℓ κ} :
    {A : Type ℓ} (p : A → Bool) (P : A → Type κ)
    → ((x : A) → (p x ≡ true) ↔ P x)
    → (xs : List A) → (every p xs ≡ true) ↔ Every P xs
every_iff p P h [] = (λ e. tt, λ e. refl)
every_iff p P h (x ∷ xs) =
    let (forth, back) = every_iff p P h xs in
    (
      λ e. let (e', e'') = and-true (p x) (every p xs) e in ((h x).0 e', forth e''),
      λ (q, qs). rw ((h x).1 q) (back qs),
    )

pub every-is_digit : (s : Bytes) → (every is_digit s ≡ true) ↔ Every IsDigit s
every-is_digit s = every_iff is_digit IsDigit (λ c. ground arith) s

is_label_char_iff : (c : ℕ) → (is_label_char c ≡ true) ↔ IsLabelChar c
unfolding is_label_char
is_label_char_iff c = ground arith

chars-NoDot : (s : Bytes) → Every IsLabelChar s → NoDot s
chars-NoDot [] h = tt
chars-NoDot (c ∷ s) (h, hs) = (λ e. ground arith, chars-NoDot s hs)

pub labels-NoDots : (parts : List Bytes) → Every IsLabel parts → NoDots parts
labels-NoDots [] h = tt
labels-NoDots (part ∷ parts) (h, hs) = (chars-NoDot part h.chars, labels-NoDots parts hs)

pub labels-NoneEmpty : (parts : List Bytes) → Every IsLabel parts → NoneEmpty parts
labels-NoneEmpty [] h = tt
labels-NoneEmpty (part ∷ parts) (h, hs) =
    (λ e. absurd (omega (arith, h.some_byte, ap length e)), labels-NoneEmpty parts hs)

module _ (strings : Strings) where
  -- the tests of the code on a part
  abbrev pub is_label : Bytes → Bool
  is_label part = not (is_bad_label strings part) && every is_label_char part

  no_dash_first_iff :
      (part : Bytes)
      → 1 ≤ length part
      → (strings.starts_with_dash part ≡ false) ↔ ((s : Bytes) → part ≢ b'-' ∷ s)
  no_dash_first_iff [] le = absurd (omega arith)
  no_dash_first_iff (c ∷ s) le = (
    λ e t e'.
        absurd (ground (arith, sym (ap strings.starts_with_dash e') ∙ e, strings.starts t b'-')),
    λ h. strings.starts s c ∙ elim (Bool-cases (c == b'-')) [
      | inl dash ↦ absurd (h s (ap (λ d. d ∷ s) ((==_iff c b'-').0 dash)))
      | inr other ↦ other
    ],
  )

  no_dash_last_iff :
      (part : Bytes)
      → 1 ≤ length part
      → (strings.ends_with_dash part ≡ false) ↔ ((s : Bytes) → part ≢ s ++ (b'-' ∷ []))
  no_dash_last_iff part le = (
    λ e t e'. absurd (ground (arith, sym (ap strings.ends_with_dash e') ∙ e, strings.ends t b'-')),
    λ h. elim (last_byte part) [
      | inl e ↦ absurd (omega (arith, ap length e))
      | inr (s, c, e) ↦
          ap strings.ends_with_dash e
          ∙ (strings.ends s c ∙ elim (Bool-cases (c == b'-')) [
            | inl dash ↦ absurd (h s (e ∙ ap (λ d. s ++ (d ∷ [])) ((==_iff c b'-').0 dash)))
            | inr other ↦ other
          ])
    ],
  )

  is_bad_label-false :
      (part : Bytes)
      → is_bad_label strings part ≡ false
      → (1 ≤ length part)
        × ((length part ≤ 63)
            × ((strings.starts_with_dash part ≡ false) × (strings.ends_with_dash part ≡ false)))
  unfolding is_bad_label
  is_bad_label-false part e = ground arith

  good_label :
      (part : Bytes)
      → 1 ≤ length part
      → length part ≤ 63
      → strings.starts_with_dash part ≡ false
      → strings.ends_with_dash part ≡ false
      → is_bad_label strings part ≡ false
  unfolding is_bad_label
  good_label part some few first last = ground arith

  is_label_iff : (part : Bytes) → (is_label part ≡ true) ↔ IsLabel part
  is_label_iff part = (forth, back)
    where
      forth : is_label part ≡ true → IsLabel part
      forth e =
          let (good, chars) =
            and-true (not (is_bad_label strings part)) (every is_label_char part) e in
          let (some, (few, (first, last))) = is_bad_label-false part (ground arith) in
          record {
            some_byte = some;
            bounded = few;
            chars = (every_iff is_label_char IsLabelChar is_label_char_iff part).0 chars;
            no_dash_first = (no_dash_first_iff part some).0 first;
            no_dash_last = (no_dash_last_iff part some).0 last;
          }

      back : IsLabel part → is_label part ≡ true
      back h =
          rw
            (good_label part h.some_byte h.bounded
              ((no_dash_first_iff part h.some_byte).1 h.no_dash_first)
              ((no_dash_last_iff part h.some_byte).1 h.no_dash_last))
            ((every_iff is_label_char IsLabelChar is_label_char_iff part).1 h.chars)

  pub every-is_label : (parts : List Bytes) → (every is_label parts ≡ true) ↔ Every IsLabel parts
  every-is_label parts = every_iff is_label IsLabel is_label_iff parts
