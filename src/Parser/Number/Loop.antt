-- ===== src/Parser/Number/Loop.antt =====
-- The digit loop against the value of a text in a base.
use native.Mathlib.Nat.{pow-suc, pow-zero, mul-le-mul_left, mul-le-mul_right, one-le-pow}
use protovalidate_cc.Base.{
  ℕ, zero, suc, ◌+◌, ◌*◌, ◌^◌, ◌≤◌, ◌<◌, ◌≡◌, refl, Option, none, some, [], ◌∷◌, ◌++◌, arith, Bytes,
  length, Option-cases, inl, inr, ap, ◌∙◌,
}
use protovalidate_cc.Parser.Number.{Scan, number_loop, unsigned}

module _ (base : ℕ) (digit : ℕ → Option ℕ) where
  -- The value of a text of digits, read behind `acc`; `none` where a byte is no digit.
  unfoldable pub digits_value : ℕ → Bytes → Option ℕ
  digits_value acc [] = some acc
  digits_value acc (c ∷ cs) = elim (digit c) [
    | none ↦ none
    | some d ↦ digits_value (acc * base + d) cs
  ]

  -- A text with a value starts with a digit.
  pub digits_value_inv :
      (acc c : ℕ) (cs : Bytes) {v : ℕ}
      → digits_value acc (c ∷ cs) ≡ some v
      → (d : ℕ) × (digit c ≡ some d) × (digits_value (acc * base + d) cs ≡ some v)
  unfolding digits_value
  digits_value_inv acc c cs h = elim (Option-cases (digit c)) [
    | inl stop ↦ absurd (ground arith)
    | inr (d, found) ↦ (d, found, rw (found, digits_value) at h)
  ]

-- The text does not go on with a digit.
abbrev pub Ends : (ℕ → Option ℕ) → Bytes → Type 0
Ends digit [] = Unit {0}
Ends digit (c ∷ _) = digit c ≡ none

-- What the loop has read: the digits `text` in front of `rest`, all of them or one too many.
pub record Read (base : ℕ) (digit : ℕ → Option ℕ) (m i value : ℕ) (s : Bytes) (r : Scan)
    : Type 0 where
  pub text : Bytes
  pub splits : s ≡ text ++ r.rest
  pub count : r.i ≡ i + length text
  pub sum : digits_value base digit value text ≡ some r.value
  pub stops : r.i ≤ m → Ends digit r.rest

-- One more digit fits into the `unsigned` value while there is room for the rounds left.
pub step_bound :
    (base k value d : ℕ)
    → d < base
    → (value + 1) * base ^ suc k ≤ 2 ^ 32
    → (unsigned (unsigned (value * base) + d) ≡ value * base + d)
      × ((value * base + d + 1) * base ^ k ≤ 2 ^ 32)
step_bound base k value d small room =
    let grows : value * base + d + 1 ≤ (value + 1) * base = omega arith in
    let scaled : (value * base + d + 1) * base ^ k ≤ (value + 1) * base * base ^ k =
      mul-le-mul_right (base ^ k) grows in
    let room' : (value + 1) * (base ^ k * base) ≤ 2 ^ 32 = rw pow-suc at room in
    let whole : (value + 1) * base * base ^ k ≤ 2 ^ 32 = omega arith in
    let one : (value * base + d + 1) * 1 ≤ (value * base + d + 1) * base ^ k =
      mul-le-mul_left (value * base + d + 1) (one-le-pow k base (omega arith)) in
    (omega arith, omega arith)

module _ (base : ℕ) (digit : ℕ → Option ℕ) (m : ℕ)
    (small : (c d : ℕ) → digit c ≡ some d → d < base) where
  loop_limit :
      (i value c : ℕ) (cs : Bytes)
      → m < i
      → number_loop base digit m i value (c ∷ cs) ≡ record { i = i; value = value; rest = c ∷ cs }
  unfolding number_loop
  loop_limit i value c cs h = ground arith

  loop_stop :
      (i value c : ℕ) (cs : Bytes)
      → i ≤ m
      → digit c ≡ none
      → number_loop base digit m i value (c ∷ cs) ≡ record { i = i; value = value; rest = c ∷ cs }
  unfolding number_loop
  loop_stop i value c cs h e = ground arith

  loop_step :
      (i value c d : ℕ) (cs : Bytes)
      → i ≤ m
      → digit c ≡ some d
      → unsigned (unsigned (value * base) + d) ≡ value * base + d
      → number_loop base digit m i value (c ∷ cs)
        ≡ number_loop base digit m (i + 1) (value * base + d) cs
  unfolding number_loop
  loop_step i value c d cs h e exact = ground arith

  -- The digit loop reads a run of digits and their value, with no wrap-around, and stops at the
  -- first byte that is no digit or at one digit too many.
  pub number_loop-Read :
      (s : Bytes) (k i value : ℕ)
      → i + k ≡ m + 1
      → (value + 1) * base ^ k ≤ 2 ^ 32
      → Read base digit m i value s (number_loop base digit m i value s)
  unfolding digits_value
  number_loop-Read [] k i value e room =
      unfold number_loop in
      record { text = []; splits = refl; count = omega arith; sum = refl; stops = λ _. tt }
  number_loop-Read (c ∷ cs) zero i value e room =
      rw (loop_limit i value c cs (omega arith)) (record {
        text = [];
        splits = refl;
        count = omega arith;
        sum = refl;
        stops = λ h. absurd (omega arith);
      })
  number_loop-Read (c ∷ cs) (suc k) i value e room = elim (Option-cases (digit c)) [
    | inl stop ↦
        rw (loop_stop i value c cs (omega arith) stop)
          (record { text = []; splits = refl; count = omega arith; sum = refl; stops = λ _. stop })
    | inr (d, found) ↦
        let (exact, room') = step_bound base k value d (small c d found) room in
        let ih = number_loop-Read cs k (i + 1) (value * base + d) (omega arith) room' in
        rw (loop_step i value c d cs (omega arith) found exact) (record {
          text = c ∷ ih.text;
          splits = ap (◌∷◌ c) ih.splits;
          count = omega (arith, ih.count);
          sum = rw (found, digits_value) ih.sum;
          stops = ih.stops;
        })
  ]

  -- The digit loop reads any text of digits that fits, up to what follows it.
  pub number_loop-append :
      (text : Bytes) (rest : Bytes) (k i value : ℕ) {v : ℕ}
      → digits_value base digit value text ≡ some v
      → i + k ≡ m + 1
      → (value + 1) * base ^ k ≤ 2 ^ 32
      → i + length text ≤ m
      → Ends digit rest
      → number_loop base digit m i value (text ++ rest)
        ≡ record { i = i + length text; value = v; rest = rest }
  unfolding digits_value
  number_loop-append [] [] k i value h e room fits ends = unfold number_loop in ground arith
  number_loop-append [] (c ∷ cs) k i value h e room fits ends =
      ground (arith, loop_stop i value c cs (omega arith) ends)
  number_loop-append (c ∷ cs) rest zero i value h e room fits ends = absurd (omega arith)
  number_loop-append (c ∷ cs) rest (suc k) i value h e room fits ends =
      elim (Option-cases (digit c)) [
        | inl stop ↦ absurd (ground arith)
        | inr (d, found) ↦
            let (exact, room') = step_bound base k value d (small c d found) room in
            loop_step i value c d (cs ++ rest) (omega arith) found exact
            ∙ number_loop-append cs rest k (i + 1) (value * base + d)
                (rw (found, digits_value) at h) (omega arith) room' (omega arith) ends
            ∙ ground arith
      ]

  -- A text of n digits has a value below base ^ n, and so on behind `acc`.
  pub digits_value-lt :
      (text : Bytes) (acc : ℕ) {v : ℕ}
      → digits_value base digit acc text ≡ some v
      → v < (acc + 1) * base ^ length text
  unfolding digits_value
  digits_value-lt [] acc {v} h = let same : acc ≡ v = ground arith in rw pow-zero (omega arith)
  digits_value-lt (c ∷ cs) acc h =
      let (d, found, h') = digits_value_inv base digit acc c cs h in
      let ih = digits_value-lt cs (acc * base + d) h' in
      let grows : acc * base + d + 1 ≤ (acc + 1) * base = omega (arith, small c d found) in
      rw pow-suc (omega (arith, ih, mul-le-mul_right (base ^ length cs) grows))
