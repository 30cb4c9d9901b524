-- ===== src/Sketch/Power.antt =====
-- `next_2_power` of src/cmsketch.rs: smearing the leading bit downwards.
use native.Mathlib.Decide.{dec_lt}
use native.Mathlib.Nat.{pow-le-pow_right, pow-suc}
use memory_cache_rust.Prelude.{
  ℕ, suc, ◌+◌, ◌-◌, ◌*◌, ◌/◌, ◌^◌, ◌≤◌, ◌<◌, ◌≡◌, refl, ap, ◌∙◌, arith, ◌%◌, ◌⊎◌, inl, inr, lt→ltb,
}
use memory_cache_rust.Prelude.Bits.{
  test_bit, test_bit-bit_or, test_bit-le, test_bit_shift, test_bit_top, test_bit_full, bit_or-lt,
  log2_bounds,
}
use memory_cache_rust.Prelude.Int.{pos, negsuc, as_i64}
use memory_cache_rust.Sketch.{next_2_power, smear, shifted}

-- The `m` bits of `x` from bit `k` down are set, and none is above.
record Smeared (k m x : ℕ) : Type 0 where
  below : x < 2 ^ suc k
  ones : (i : ℕ) → i ≤ k → k < i + m → test_bit i x ≡ 1

shift-le : (m x : ℕ) → x / 2 ^ m ≤ x
shift-le m x = omega arith

-- The sign is clear, so that a shift fills with zeros.
shifted_clear : (m x : ℕ) → x < 2 ^ 63 → shifted m x ≡ x / 2 ^ m
shifted_clear m x h = rw (lt→ltb x (2 ^ 63) h) refl

clear_sign : (k x : ℕ) → k < 63 → x < 2 ^ suc k → x < 2 ^ 63
clear_sign k x small h =
    omega (arith, pow-le-pow_right {n = 2} (omega arith) {i = suc k} {j = 63} (omega arith))

Smeared-double : (k m x : ℕ) → k < 63 → Smeared k m x → Smeared k (m + m) (smear m x)
Smeared-double k m x small s = rw (shifted_clear m x (clear_sign k x small s.below)) (record {
  below = bit_or-lt (suc k) x (x / 2 ^ m) s.below (omega (arith, shift-le m x, s.below));
  ones = λ i p q.
      rw (test_bit-bit_or, test_bit_shift)
        (elim (dec_lt k (i + m)) [
          | yes near ↦ omega (arith, s.ones i p near, test_bit-le (i + m) x)
          | no far ↦ omega (arith, s.ones (i + m) (omega arith) (omega arith), test_bit-le i x)
        ]);
})

Smeared-start : (k x : ℕ) → 2 ^ k ≤ x → x < 2 ^ suc k → Smeared k 1 x
Smeared-start k x lo hi = record {
  below = hi;
  ones = λ i p q. let e : i ≡ k = omega arith in rw e (test_bit_top k x lo hi);
}

exponent-lt : (k x : ℕ) → 2 ^ k ≤ x → x < 2 ^ 63 → k < 63
exponent-lt k x lo hi = elim (dec_lt k 63) [
  | yes p ↦ p
  | no p ↦
      absurd (omega (arith, pow-le-pow_right {n = 2} (omega arith) {i = 63} {j = k} (omega arith)))
]

-- After the six smears of the source every bit below the leading one is set.
smeared :
    (k x : ℕ) → 2 ^ k ≤ x → x < 2 ^ suc k → k < 63 → next_2_power (pos (x + 1)) ≡ as_i64 (2 ^ suc k)
unfolding next_2_power
smeared k x lo hi small =
    let e : ((x + 1) % 2 ^ 64 + 2 ^ 64 - 1) % 2 ^ 64 ≡ x = omega (arith, clear_sign k x small hi) in
    let s₁ = Smeared-double k 1 _ small (Smeared-start k x lo hi) in
    let s₂ = Smeared-double k 2 _ small s₁ in
    let s₃ = Smeared-double k 4 _ small s₂ in
    let s₄ = Smeared-double k 8 _ small s₃ in
    let s₅ = Smeared-double k 16 _ small s₄ in
    let s₆ = Smeared-double k 32 _ small s₅ in
    rw e
      (ap as_i64 (test_bit_full (suc k) _ s₆.below (λ i p. s₆.ones i (omega arith) (omega arith))))

as_i64-small : (n : ℕ) → n ≤ 2 ^ 62 → as_i64 n ≡ pos n
unfolding as_i64
as_i64-small n h = ground arith

-- The bound on the exponent, where the argument is at most 2^62.
power-le : (k x : ℕ) → 2 ^ k < x → x ≤ 2 ^ 62 → 2 ^ suc k ≤ 2 ^ 62
power-le k x lo hi = elim (dec_lt k 62) [
  | yes p ↦ pow-le-pow_right {n = 2} (omega arith) {i = suc k} {j = 62} (omega arith)
  | no p ↦
      absurd (omega (arith, pow-le-pow_right {n = 2} (omega arith) {i = 62} {j = k} (omega arith)))
]

pub next_2_power_small :
    (x : ℕ)
    → 1 ≤ x
    → x ≤ 2 ^ 62
    → (k : ℕ) × (next_2_power (pos x) ≡ pos (2 ^ k)) × (x ≤ 2 ^ k) × (2 ^ k < 2 * x)
next_2_power_small x some_at small = elim (dec_lt x 2) [
  | yes one ↦
      let e : x ≡ 1 = omega arith in
      (0, rw e (unfold next_2_power as_i64 in refl), omega arith, omega arith)
  | no more ↦
      let (k, lo, hi) = log2_bounds (x - 1) (omega arith) in
      let e : x ≡ x - 1 + 1 = omega arith in
      let p = smeared k (x - 1) lo hi (exponent-lt k (x - 1) lo (omega arith)) in
      let fits = power-le k x (omega arith) small in
      (
        suc k,
        ap (λ n. next_2_power (pos n)) e ∙ (p ∙ as_i64-small (2 ^ suc k) fits),
        omega arith,
        omega (arith, pow-suc 2 k),
      )
]

-- The exponent of a number with its leading bit at 62.
leading : (k x : ℕ) → 2 ^ 62 ≤ x → x < 2 ^ 63 → 2 ^ k ≤ x → x < 2 ^ suc k → k ≡ 62
leading k x above below lo hi = elim (dec_lt k 62) [
  | yes p ↦
      absurd
        (omega (arith, pow-le-pow_right {n = 2} (omega arith) {i = suc k} {j = 62} (omega arith)))
  | no p ↦ omega (arith, exponent-lt k x lo below)
]

next_2_power_large : (x : ℕ) → 2 ^ 62 < x → x < 2 ^ 63 → next_2_power (pos x) ≡ negsuc (2 ^ 63 - 1)
next_2_power_large x above below =
    let (k, lo, hi) = log2_bounds (x - 1) (omega arith) in
    let e : x ≡ x - 1 + 1 = omega arith in
    let top : k ≡ 62 = leading k (x - 1) (omega arith) (omega arith) lo hi in
    let p = smeared k (x - 1) lo hi (exponent-lt k (x - 1) lo (omega arith)) in
    ap (λ n. next_2_power (pos n)) e
    ∙ (p ∙ ap (λ j. as_i64 (2 ^ suc j)) top ∙ (unfold as_i64 in refl))

-- For an argument between 1 and 2^62 the result is a power of two that is not below the argument
-- and below its double; for one above 2^62 that is an `i64` it is the least `i64`, to which the
-- power wraps.
pub next_2_power-le :
    (x : ℕ)
    → 1 ≤ x
    → x < 2 ^ 63
    → ((x ≤ 2 ^ 62)
        × ((k : ℕ) × (next_2_power (pos x) ≡ pos (2 ^ k)) × (x ≤ 2 ^ k) × (2 ^ k < 2 * x)))
      ⊎ ((2 ^ 62 < x) × (next_2_power (pos x) ≡ negsuc (2 ^ 63 - 1)))
next_2_power-le x some_at below = elim (dec_lt (2 ^ 62) x) [
  | yes above ↦ inr (above, next_2_power_large x above below)
  | no small ↦ inl (omega arith, next_2_power_small x some_at (omega arith))
]
