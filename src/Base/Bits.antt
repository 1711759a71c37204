-- ===== src/Base/Bits.antt =====
-- Laws of `bit_or` and `bit_and` on blocks of bits: `|` of disjoint blocks is a sum, and `&` with a
-- mask of ones keeps the low block.
use Prim.Native.Nat.{
  ℕ, zero, suc, ◌+◌, ◌-◌, ◌*◌, ◌/◌, ◌%◌, ◌^◌, ◌≤◌, ◌<◌, min, max, bit_and, bit_or, digits,
  bit_and-bitwise, bit_or-bitwise,
}
use mathlib.Core.Path.{◌≡◌, refl}
use native.Mathlib.Nat.{pow-suc}
use native.Mathlib.Omega.{arith}

-- What the native bitwise operations stand for reads one binary digit for each unit of fuel; two
-- amounts of fuel that cover the first number give the same.
module _ (alone : ℕ → ℕ) (merge : ℕ → ℕ → ℕ) where
  digits-enough :
      (n m a b : ℕ) → a ≤ m → a ≤ n → digits alone merge m a b ≡ digits alone merge n a b
  digits-enough (suc n) (suc m) (suc a) b below_m below_n =
      let half = digits-enough n m (suc a / 2) (b / 2) (omega arith) (omega arith) in
      omega (arith, half)
  digits-enough n zero (suc a) b below_m below_n = absurd (omega (arith, below_m))
  digits-enough zero m (suc a) b below_m below_n = absurd (omega (arith, below_n))
  digits-enough (suc n) (suc m) zero b _ _ = refl
  digits-enough (suc n) zero zero b _ _ = refl
  digits-enough zero (suc m) zero b _ _ = refl
  digits-enough zero zero zero b _ _ = refl

  half_step :
      (a b : ℕ)
      → digits alone merge (suc a) (suc a) b
        ≡ digits alone merge (suc a / 2) (suc a / 2) (b / 2) * 2 + merge (suc a % 2) (b % 2)
  half_step a b =
      omega (arith, digits-enough (suc a / 2) a (suc a / 2) (b / 2) (omega arith) (omega arith))

pub zero-bit_or : (b : ℕ) → bit_or 0 b ≡ b
zero-bit_or b = bit_or-bitwise 0 b

bit_or_step : (a b : ℕ) → bit_or a b ≡ bit_or (a / 2) (b / 2) * 2 + max (a % 2) (b % 2)
bit_or_step zero b = omega (arith, zero-bit_or b, zero-bit_or (b / 2))
bit_or_step (suc a) b =
    let whole = bit_or-bitwise (suc a) b in
    omega (arith, whole, half_step (λ b. b) max a b, bit_or-bitwise (suc a / 2) (b / 2))

two_pow_pos : (k : ℕ) → 0 < 2 ^ k
two_pow_pos zero = omega arith
two_pow_pos (suc k) = omega (arith, two_pow_pos k, pow-suc 2 k)

pub bit_or-zero : (a : ℕ) → bit_or a 0 ≡ a
bit_or-zero a = go a a (omega arith)
  where
    go : (n a : ℕ) → a ≤ n → bit_or a 0 ≡ a
    go zero zero h = refl
    go zero (suc a) h = absurd (omega arith)
    go (suc n) zero h = refl
    go (suc n) (suc a) h = omega (arith, bit_or_step (suc a) 0, go n (suc a / 2) (omega arith))

-- A block above bit k, or-ed with a value below 2 ^ k.
pub bit_or-disjoint : (k x y : ℕ) → y < 2 ^ k → bit_or (x * 2 ^ k) y ≡ x * 2 ^ k + y
bit_or-disjoint zero x zero h = omega (arith, bit_or-zero (x * 2 ^ 0))
bit_or-disjoint zero x (suc y) h = absurd (omega arith)
bit_or-disjoint (suc k) x y h =
    let e : x * 2 ^ suc k ≡ 2 * (x * 2 ^ k) = rw pow-suc (omega arith) in
    let half : (2 * (x * 2 ^ k)) / 2 ≡ x * 2 ^ k = omega arith in
    rw
      (
        e,
        bit_or_step (2 * (x * 2 ^ k)) y,
        half,
        bit_or-disjoint k x (y / 2) (omega (arith, pow-suc 2 k)),
      )
      (omega arith)

bit_and_step : (a b : ℕ) → bit_and a b ≡ bit_and (a / 2) (b / 2) * 2 + min (a % 2) (b % 2)
bit_and_step zero b = omega (arith, bit_and-bitwise 0 b, bit_and-bitwise 0 (b / 2))
bit_and_step (suc a) b =
    let whole = bit_and-bitwise (suc a) b in
    omega (arith, whole, half_step (λ b. zero) min a b, bit_and-bitwise (suc a / 2) (b / 2))

bit_and-zero : (a : ℕ) → bit_and a 0 ≡ 0
bit_and-zero a = go a a (omega arith)
  where
    go : (n a : ℕ) → a ≤ n → bit_and a 0 ≡ 0
    go zero zero h = refl
    go zero (suc a) h = absurd (omega arith)
    go (suc n) zero h = refl
    go (suc n) (suc a) h = omega (arith, bit_and_step (suc a) 0, go n (suc a / 2) (omega arith))

-- A mask of k ones keeps the remainder of a division by 2 ^ k.
pub bit_and-ones : (k q r : ℕ) → r < 2 ^ k → bit_and (q * 2 ^ k + r) (2 ^ k - 1) ≡ r
bit_and-ones zero q r h = omega (arith, bit_and-zero (q * 2 ^ 0 + r))
bit_and-ones (suc k) q r h =
    let e : q * 2 ^ suc k + r ≡ 2 * (q * 2 ^ k) + r = rw pow-suc (omega arith) in
    let half : (2 * (q * 2 ^ k) + r) / 2 ≡ q * 2 ^ k + r / 2 = omega arith in
    let ones : (2 ^ suc k - 1) / 2 ≡ 2 ^ k - 1 = omega (arith, pow-suc 2 k, two_pow_pos k) in
    let odd : (2 ^ suc k - 1) % 2 ≡ 1 = omega (arith, pow-suc 2 k, two_pow_pos k) in
    rw
      (
        e,
        bit_and_step (2 * (q * 2 ^ k) + r) (2 ^ suc k - 1),
        half,
        ones,
        odd,
        bit_and-ones k q (r / 2) (omega (arith, pow-suc 2 k)),
      )
      (omega arith)

-- The same, for a number that is known to have no bits below k.
pub bit_or-eq-add : (k x y z : ℕ) → z ≡ x * 2 ^ k → y < 2 ^ k → bit_or z y ≡ z + y
bit_or-eq-add k x y z e h = rw e (bit_or-disjoint k x y h)

-- `|` stays within the bits of its two sides.
pub bit_or-lt : (k a b : ℕ) → a < 2 ^ k → b < 2 ^ k → bit_or a b < 2 ^ k
bit_or-lt zero zero zero h g = omega (arith, zero-bit_or 0)
bit_or-lt zero zero (suc b) h g = absurd (omega arith)
bit_or-lt zero (suc a) b h g = absurd (omega arith)
bit_or-lt (suc k) a b h g = omega (
  arith,
  pow-suc 2 k,
  bit_or_step a b,
  bit_or-lt k (a / 2) (b / 2) (omega (arith, pow-suc 2 k)) (omega (arith, pow-suc 2 k)),
)
