-- ===== src/Prelude/Bits.antt =====
-- Laws of the native bit operations at variables, from the recursion on binary digits.
use Prim.Native.Nat.{
  ℕ, zero, suc, ◌+◌, ◌-◌, ◌*◌, ◌/◌, ◌%◌, ◌^◌, ◌≤◌, ◌<◌, min, max, bit_and, bit_or, digits, bitwise,
  bit_and-bitwise, bit_or-bitwise,
}
use mathlib.Core.Path.{◌≡◌, refl, ap, ◌∙◌}
use mathlib.Core.Logic.{◌≢◌}
use native.Mathlib.Decide.{dec_lt}
use native.Mathlib.Nat.{
  le_refl, add-zero, add-suc, suc-add, div-one, pow-suc, pow-succ', one-le-pow, div-div-eq-div-mul,
}
use native.Mathlib.Omega.{arith}

-- The fuel of the native recursion: any that is not below the first number gives the same.
module _ (start : ℕ → ℕ) (digit : ℕ → ℕ → ℕ) where
  more_fuel :
      (fuel more x y : ℕ)
      → fuel ≤ more
      → x ≤ fuel
      → digits start digit more x y ≡ digits start digit fuel x y
  more_fuel (suc fuel) zero x y le fits = absurd (omega arith)
  more_fuel (suc fuel) (suc more) (suc x) y le fits =
      rw (more_fuel fuel more (suc x / 2) (y / 2) (omega arith) (omega arith)) refl
  more_fuel (suc fuel) (suc more) zero y le fits = refl
  more_fuel zero (suc more) (suc x) y le fits = absurd (omega arith)
  more_fuel zero (suc more) zero y le fits = refl
  more_fuel zero zero x y le fits = refl

  lowest :
      (x y : ℕ)
      → bitwise start digit (suc x) y
        ≡ digit (suc x % 2) (y % 2) + 2 * bitwise start digit (suc x / 2) (y / 2)
  lowest x y =
      let half = suc x / 2 in
      let e = more_fuel half x half (y / 2) (omega arith) (omega arith) in omega (arith, e)

bit_and_step : (x y : ℕ) → bit_and x y ≡ min (x % 2) (y % 2) + 2 * bit_and (x / 2) (y / 2)
bit_and_step (suc x) y = simp bit_and-bitwise (lowest (λ k. 0) min x y)
bit_and_step zero y = simp bit_and-bitwise (omega arith)

bit_or_step : (x y : ℕ) → bit_or x y ≡ max (x % 2) (y % 2) + 2 * bit_or (x / 2) (y / 2)
bit_or_step (suc x) y = simp bit_or-bitwise (lowest (λ k. k) max x y)
bit_or_step zero y = simp bit_or-bitwise (omega arith)

zero-bit_and : (b : ℕ) → bit_and 0 b ≡ 0
zero-bit_and b = bit_and-bitwise 0 b

zero-bit_or : (b : ℕ) → bit_or 0 b ≡ b
zero-bit_or b = bit_or-bitwise 0 b

bit_and-le_below : (x fuel y : ℕ) → x ≤ fuel → bit_and x y ≤ y
bit_and-le_below (suc x) (suc fuel) y fits =
    let rest = bit_and-le_below (suc x / 2) fuel (y / 2) (omega arith) in
    omega (arith, rest, bit_and_step (suc x) y)
bit_and-le_below (suc x) zero y fits = absurd (omega arith)
bit_and-le_below zero fuel y fits = omega (arith, zero-bit_and y)

-- A mask bounds the result.
pub bit_and-le : (x mask : ℕ) → bit_and x mask ≤ mask
bit_and-le x mask = bit_and-le_below x x mask (omega arith)

low_bits : (k high low : ℕ) → low < 2 ^ k → bit_and (high * 2 ^ k + low) (2 ^ k - 1) ≡ low
low_bits zero high low fits = omega (arith, bit_and-le (high * 2 ^ 0 + low) 0)
low_bits (suc k) high low fits =
    let twice : high * 2 ^ suc k ≡ 2 * (high * 2 ^ k) =
      omega (arith, ap (λ (t : ℕ). high * t) (pow-suc 2 k)) in
    let rest = low_bits k high (low / 2) (omega (arith, pow-suc 2 k)) in
    ground (arith, twice, rest, pow-suc 2 k, bit_and_step (high * 2 ^ suc k + low) (2 ^ suc k - 1))

-- A mask of `k` low bits is the remainder by `2 ^ k`.
pub bit_and_mask : (k a : ℕ) → bit_and a (2 ^ k - 1) ≡ a % 2 ^ k
bit_and_mask k a = ground (arith, one-le-pow k 2, low_bits k (a / 2 ^ k) (a % 2 ^ k))

-- Bit `k` of a number.
unfoldable pub test_bit : ℕ → ℕ → ℕ
test_bit zero x = x % 2
test_bit (suc k) x = test_bit k (x / 2)

pub test_bit-bit_or : (k a b : ℕ) → test_bit k (bit_or a b) ≡ max (test_bit k a) (test_bit k b)
unfolding test_bit
test_bit-bit_or zero a b = omega (arith, bit_or_step a b)
test_bit-bit_or (suc k) a b =
    let half : bit_or a b / 2 ≡ bit_or (a / 2) (b / 2) = omega (arith, bit_or_step a b) in
    rw half (test_bit-bit_or k (a / 2) (b / 2))

pub test_bit-pow : (k : ℕ) → test_bit k (2 ^ k) ≡ 1
unfolding test_bit
test_bit-pow zero = refl
test_bit-pow (suc k) =
    let half : 2 ^ suc k / 2 ≡ 2 ^ k = omega (arith, pow-suc 2 k) in rw half (test_bit-pow k)

pub test_bit-le : (k x : ℕ) → test_bit k x ≤ 1
unfolding test_bit
test_bit-le zero x = omega arith
test_bit-le (suc k) x = test_bit-le k (x / 2)

-- `x >> k & 1` is bit `k`.
pub test_bit_lem : (k x : ℕ) → bit_and (x / 2 ^ k) 1 ≡ test_bit k x
unfolding test_bit
test_bit_lem zero x = omega (arith, bit_and_mask 1 (x / 2 ^ 0))
test_bit_lem (suc k) x =
    let step : x / 2 ^ suc k ≡ x / 2 / 2 ^ k = rw (div-div-eq-div-mul, ← pow-succ') refl in
    rw step (test_bit_lem k (x / 2))

-- A shift to the right moves the bits down.
pub test_bit_shift : (m i x : ℕ) → test_bit i (x / 2 ^ m) ≡ test_bit (i + m) x
unfolding test_bit
test_bit_shift zero i x = rw (div-one, add-zero) refl
test_bit_shift (suc m) i x =
    let step : x / 2 ^ suc m ≡ x / 2 ^ m / 2 = rw (div-div-eq-div-mul, ← pow-suc) refl in
    rw (step, add-suc) (test_bit_shift m (suc i) x ∙ rw suc-add refl)

-- The leading bit of a number.
pub test_bit_top : (k x : ℕ) → 2 ^ k ≤ x → x < 2 ^ suc k → test_bit k x ≡ 1
unfolding test_bit
test_bit_top zero x p q = omega arith
test_bit_top (suc k) x p q =
    test_bit_top k (x / 2) (omega (arith, pow-suc 2 k))
      (omega (arith, pow-suc 2 k, pow-suc 2 (suc k)))

-- A number whose low bits are all set, and which has no others.
pub test_bit_full : (k x : ℕ) → x < 2 ^ k → ((i : ℕ) → i < k → test_bit i x ≡ 1) → x + 1 ≡ 2 ^ k
unfolding test_bit
test_bit_full zero x lt h = omega arith
test_bit_full (suc k) x lt h = omega (
  arith,
  pow-suc 2 k,
  h 0 (omega arith),
  test_bit_full k (x / 2) (omega (arith, pow-suc 2 k)) (λ i p. h (suc i) (omega arith)),
)

pub bit_or-lt : (k a b : ℕ) → a < 2 ^ k → b < 2 ^ k → bit_or a b < 2 ^ k
bit_or-lt zero a b p q =
    let a0 : a ≡ 0 = omega arith in let b0 : b ≡ 0 = omega arith in rw (a0, b0) (omega arith)
bit_or-lt (suc k) a b p q = omega (
  arith,
  pow-suc 2 k,
  bit_or_step a b,
  bit_or-lt k (a / 2) (b / 2) (omega (arith, pow-suc 2 k)) (omega (arith, pow-suc 2 k)),
)

-- Every positive number lies between two powers of two.
log2_fuel : (n x : ℕ) → 1 ≤ x → x ≤ n → (k : ℕ) × (2 ^ k ≤ x) × (x < 2 ^ suc k)
log2_fuel zero x p q = absurd (omega arith)
log2_fuel (suc n) x p q = elim (dec_lt x 2) [
  | yes small ↦ (0, omega arith, omega arith)
  | no large ↦
      let (k, lo, hi) = log2_fuel n (x / 2) (omega arith) (omega arith) in
      (suc k, omega (arith, pow-suc 2 k), omega (arith, pow-suc 2 (suc k)))
]

pub log2_bounds : (x : ℕ) → 1 ≤ x → (k : ℕ) × (2 ^ k ≤ x) × (x < 2 ^ suc k)
log2_bounds x p = log2_fuel x x p (le_refl _)

pub zero-test_bit : (k : ℕ) → test_bit k 0 ≡ 0
unfolding test_bit
zero-test_bit zero = refl
zero-test_bit (suc k) = zero-test_bit k

-- A power of two has one bit.
pub test_bit-pow_ne : (k m : ℕ) → k ≢ m → test_bit k (2 ^ m) ≡ 0
unfolding test_bit
test_bit-pow_ne zero zero ne = absurd (ne refl)
test_bit-pow_ne zero (suc m) ne = omega (arith, pow-suc 2 m)
test_bit-pow_ne (suc k) zero ne = zero-test_bit k
test_bit-pow_ne (suc k) (suc m) ne =
    let half : 2 ^ suc m / 2 ≡ 2 ^ m = omega (arith, pow-suc 2 m) in
    rw half (test_bit-pow_ne k m (λ e. ne (ap suc e)))
