-- ===== src/Uri/Language.antt =====
-- Languages of byte strings, and what it means that a method of uri.cc reads one. A language says
-- nothing of views that are saved, of loops or of looking ahead.
use mathlib.Core.Path.{subst}
use protovalidate_cc.Base.{
  ℕ, zero, suc, ◌≡◌, refl, sym, ap, ◌∙◌, inl, inr, Bool, true, false, ◌||◌, List, [], ◌∷◌, ◌++◌,
  append_assoc, arith, Bytes, length, drop, Bool-cases, ltb, not,
}
use protovalidate_cc.Parser.Chars.{char_match_range, consume, consume_sequence, sequence_match}
use protovalidate_cc.Uri.Steps.{
  Method, and_then, or_else, ◌&&&◌, ◌|||◌, restore, restoring, test, skip_rounds, skip,
}

abbrev pub Language : Type 1
Language = Bytes → Type 0

-- one byte of a character sequence
pub data OneOf (seq : List ℕ) : Bytes → Type 0 where
  one : {c : ℕ} → char_match_range seq c ≡ true → OneOf seq (c ∷ [])

-- the text itself
abbrev pub Exactly : Bytes → Language
Exactly t s = s ≡ t

pub data Cat (P Q : Language) : Bytes → Type 0 where
  cat : {s t : Bytes} → P s → Q t → Cat P Q (s ++ t)

pub data Alt (P Q : Language) : Bytes → Type 0 where
  left : {s : Bytes} → P s → Alt P Q s
  right : {s : Bytes} → Q s → Alt P Q s

pub data Star (P : Language) : Bytes → Type 0 where
  none_of : Star P []
  some_of : {s t : Bytes} → P s → Star P t → Star P (s ++ t)

abbrev pub Opt : Language → Language
Opt P = Alt (Exactly []) P

-- A text of P is read off the front of `s`, where the method answers `true`.
abbrev pub Yields : Language → Bytes → Bool × Bytes → Type 0
Yields P s (true, t) = (pre : Bytes) × (s ≡ pre ++ t) × P pre
Yields P s (false, t) = Unit {0}

-- The same, and `false` leaves the view as it was.
abbrev pub Consumes : Language → Bytes → Bool × Bytes → Type 0
Consumes P s (true, t) = (pre : Bytes) × (s ≡ pre ++ t) × P pre
Consumes P s (false, t) = t ≡ s

abbrev pub Reads : Language → Method → Type 0
Reads P p = (s : Bytes) → Yields P s (p s)

abbrev pub Recognises : Language → Method → Type 0
Recognises P p = (s : Bytes) → Consumes P s (p s)

Consumes-Yields : (P : Language) (s : Bytes) (r : Bool × Bytes) → Consumes P s r → Yields P s r
Consumes-Yields P s (true, t) h = h
Consumes-Yields P s (false, t) h = tt

pub Recognises-Reads : (P : Language) (p : Method) → Recognises P p → Reads P p
Recognises-Reads P p h s = Consumes-Yields P s (p s) (h s)

Yields-restore :
    (P : Language) (s : Bytes) (r : Bool × Bytes) → Yields P s r → Consumes P s (restore s r)
Yields-restore P s (true, t) h = h
Yields-restore P s (false, t) h = refl

pub Recognises-restoring : (P : Language) (p : Method) → Reads P p → Recognises P (restoring p)
Recognises-restoring P p h s = Yields-restore P s (p s) (h s)

module _ (P Q : Language) where
  pub Yields-and_then :
      (s : Bytes) (r : Bool × Bytes) (q : Method)
      → Yields P s r
      → Reads Q q
      → Yields (Cat P Q) s (and_then r q)
  Yields-and_then s (true, t) q (pre, e, h) k = go (q t) (k t)
    where
      go : (r : Bool × Bytes) → Yields Q t r → Yields (Cat P Q) s r
      go (true, u) (mid, e', h') =
          (pre ++ mid, e ∙ ap (◌++◌ pre) e' ∙ sym (append_assoc pre mid u), cat h h')
      go (false, u) _ = tt
  Yields-and_then s (false, t) q h k = tt

  pub Reads-&&& : (p q : Method) → Reads P p → Reads Q q → Reads (Cat P Q) (p &&& q)
  Reads-&&& p q h k s = Yields-and_then s (p s) q (h s) k

  Consumes-or_else :
      (s : Bytes) (r : Bool × Bytes) (q : Method)
      → Consumes P s r
      → Recognises Q q
      → Consumes (Alt P Q) s (or_else r q)
  Consumes-or_else s (true, t) q (pre, e, h) k = (pre, e, left h)
  Consumes-or_else s (false, t) q h k =
      subst (λ x. Consumes (Alt P Q) s (q x)) (sym h) (go (q s) (k s))
    where
      go : (r : Bool × Bytes) → Consumes Q s r → Consumes (Alt P Q) s r
      go (true, u) (mid, e, h') = (mid, e, right h')
      go (false, u) e = e

  pub Recognises-||| :
      (p q : Method) → Recognises P p → Recognises Q q → Recognises (Alt P Q) (p ||| q)
  Recognises-||| p q h k s = Consumes-or_else s (p s) q (h s) k

  Yields-or_else :
      (s : Bytes) (r : Bool × Bytes) (q : Method)
      → Consumes P s r
      → Reads Q q
      → Yields (Alt P Q) s (or_else r q)
  Yields-or_else s (true, t) q (pre, e, h) k = (pre, e, left h)
  Yields-or_else s (false, t) q h k = subst (λ x. Yields (Alt P Q) s (q x)) (sym h) (go (q s) (k s))
    where
      go : (r : Bool × Bytes) → Yields Q s r → Yields (Alt P Q) s r
      go (true, u) (mid, e, h') = (mid, e, right h')
      go (false, u) _ = tt

  -- The second alternative need not restore the view.
  pub Reads-||| : (p q : Method) → Recognises P p → Reads Q q → Reads (Alt P Q) (p ||| q)
  Reads-||| p q h k s = Yields-or_else s (p s) q (h s) k

pub Recognises-consume : (seq : List ℕ) → Recognises (OneOf seq) (consume seq)
unfolding consume
Recognises-consume seq [] = refl
Recognises-consume seq (c ∷ s) = elim (Bool-cases (char_match_range seq c)) [
  | inl e ↦ rw e (c ∷ [], refl, one e)
  | inr e ↦ rw e refl
]

pub Reads-test : (b : Bytes → Bool) → Reads (Exactly []) (test b)
Reads-test b s = go (b s)
  where
    go : (v : Bool) → Yields (Exactly []) s (v, s)
    go true = ([], refl, refl)
    go false = tt

-- What a loop has read, and where it stands.
abbrev pub Skips : Language → Bytes → Bytes → Type 0
Skips P s t = (pre : Bytes) × (s ≡ pre ++ t) × Star P pre

module _ (P : Language) (p : Method) (h : Recognises P p) where
  skip_rounds-Skips : (fuel : ℕ) (s : Bytes) → Skips P s (skip_rounds fuel p s)
  unfolding skip_rounds
  skip_rounds-Skips zero s = ([], refl, none_of)
  skip_rounds-Skips (suc fuel) s = go (p s) (h s) (skip_rounds-Skips fuel)
    where
      go :
          (r : Bool × Bytes)
          → Consumes P s r
          → ((t : Bytes) → Skips P t (skip_rounds fuel p t))
          → Skips P s (elim r.0 [ true ↦ skip_rounds fuel p r.1 | false ↦ r.1 ])
      go (true, t) (pre, e, one_round) ih =
          let (mid, e', rest) = ih t in
          (
            pre ++ mid,
            e ∙ ap (◌++◌ pre) e' ∙ sym (append_assoc pre mid (skip_rounds fuel p t)),
            some_of one_round rest,
          )
      go (false, t) e ih = ([], sym e, none_of)

  pub skip-Skips : (s : Bytes) → Skips P s (skip p s)
  unfolding skip
  skip-Skips s = skip_rounds-Skips (suc (length s)) s

-- A loop, and a look at what is behind it.
pub Yields-skipped :
    (P : Language) (s t : Bytes) (b : Bool) → Skips P s t → Yields (Star P) s (b, t)
Yields-skipped P s t true h = h
Yields-skipped P s t false h = tt

sequence_match-splits : (cs s : Bytes) → sequence_match cs s ≡ true → s ≡ cs ++ drop (length cs) s
unfolding sequence_match
sequence_match-splits [] s h = refl
sequence_match-splits (c ∷ cs) [] h = cc
sequence_match-splits (c ∷ cs) (d ∷ s) h = ground (arith, sequence_match-splits cs s)

pub Recognises-consume_sequence : (cs : Bytes) → Recognises (Exactly cs) (consume_sequence cs)
unfolding consume_sequence
Recognises-consume_sequence cs s =
    elim (Bool-cases (ltb (length s) (length cs) || not (sequence_match cs s))) [
      | inl refused ↦ rw refused refl
      | inr matched ↦ rw matched (cs, sequence_match-splits cs s (ground arith), refl)
    ]

-- Two loops' worth of text, one behind the other.
pub Star-append : (P : Language) {s : Bytes} (u : Bytes) → Star P s → Star P u → Star P (s ++ u)
Star-append P u none_of k = k
Star-append P u (some_of {s} {t} h rest) k =
    subst (Star P) (sym (append_assoc s t u)) (some_of h (Star-append P u rest k))

pub Yields-map :
    (P Q : Language)
    → ((s : Bytes) → P s → Q s)
    → (s : Bytes) (r : Bool × Bytes) → Yields P s r
    → Yields Q s r
Yields-map P Q f s (true, t) (pre, e, h) = (pre, e, f pre h)
Yields-map P Q f s (false, t) h = tt

pub Reads-map : (P Q : Language) (p : Method) → ((s : Bytes) → P s → Q s) → Reads P p → Reads Q p
Reads-map P Q p f h s = Yields-map P Q f s (p s) (h s)
