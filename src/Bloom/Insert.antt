-- ===== src/Bloom/Insert.antt =====
-- The operations that change the filter of src/bloom/bbloom.rs, and its construction.
use native.Mathlib.Decide.{dec_lt}
use native.Mathlib.Nat.{pow-suc, pow-le-pow_right}
use native.Mathlib.Numerals.{add-one}
use memory_cache_rust.Prelude.{
  ℕ, zero, suc, ◌+◌, ◌-◌, ◌*◌, ◌/◌, ◌%◌, ◌^◌, ◌<◌, ◌≤◌, ◌≡◌, refl, true, false, not, ok, length,
  length-replicate, arith, if◌then◌else◌, ltb, lt→ltb, max, replicate, Bool-cases, inl, inr,
}
use memory_cache_rust.Bloom.Cells.{bit_of-replicate}
use memory_cache_rust.Bloom.Member.{
  IsValid, all_set, mark_all, length-mark_all, bit_of-mark_all, all_set-mark_all, all_set_mono,
  member, location-fits, has-member, add_from-mark_all,
}
use memory_cache_rust.Bloom.{
  Bloom, location, add, add_if_not_has, clear, get_size_loop, get_size, size_bits, with_size,
}

-- What an insertion of `hash` does to a filter.
pub record Adds (hash : ℕ) (b b' : Bloom) : Type 0 where
  pub valid : IsValid b'
  pub found : member b' hash ≡ true
  pub kept : (h : ℕ) → member b h ≡ true → member b' h ≡ true
  pub same_size : b'.size ≡ b.size
  pub same_locs : b'.set_locs ≡ b.set_locs

pub add-Adds :
    (hash : ℕ) (b : Bloom) → IsValid b → (b' : Bloom) × (add hash b ≡ ok b') × Adds hash b b'
unfolding add member location
add-Adds hash b v =
    let (e, run) = add_from-mark_all b.set_locs 0 hash b v in
    let loc = location b hash in
    let bits = mark_all loc b.set_locs 0 b.bitset in
    let fits = λ (i : ℕ). location-fits b hash i v in
    (
      record b { bitset = bits; elem_num = e },
      run,
      record {
        valid = record { fits = rw length-mark_all v.fits };
        found = all_set-mark_all loc (length b.bitset) fits b.set_locs 0 b.bitset refl;
        kept = λ h.
            all_set_mono (location b h) b.bitset bits
              (λ j. bit_of-mark_all loc (length b.bitset) fits b.set_locs 0 j b.bitset refl)
              b.set_locs 0;
        same_size = refl;
        same_locs = refl;
      },
    )

-- On a filter whose indices are in its bitset `add_if_not_has` does not fault; it returns whether
-- the hash was new; a known hash changes nothing; and afterwards the hash is found, with every
-- hash found before.
pub add_if_not_has_lem :
    (hash : ℕ) (b : Bloom)
    → IsValid b
    → (b' : Bloom) × (add_if_not_has hash b ≡ ok (not (member b hash), b'))
      × Adds hash b b'
      × (member b hash ≡ true → b' ≡ b)
unfolding add_if_not_has
add_if_not_has_lem hash b v = elim (Bool-cases (member b hash)) [
  | inl known ↦ (
    b,
    rw (has-member hash b v) (ground arith),
    record { valid = v; found = known; kept = λ h p. p; same_size = refl; same_locs = refl },
    λ p. refl,
  )
  | inr fresh ↦
      let (b', run, a) = add-Adds hash b v in
      (b', rw (has-member hash b v, fresh) (rw run refl), a, λ p. ground arith)
]

all_set_new : (loc : ℕ → ℕ) (n len : ℕ) → 0 < n → all_set loc n 0 (replicate len 0) ≡ false
unfolding all_set
all_set_new loc zero len p = absurd (omega arith)
all_set_new loc (suc n) len p = rw bit_of-replicate refl

-- `clear` empties a filter that has a location to look at.
pub clear-member :
    (b : Bloom)
    → IsValid b
    → IsValid (clear b)
      × (0 < b.set_locs → (h : ℕ) → member (clear b) h ≡ false)
      × ((clear b).set_locs ≡ b.set_locs)
unfolding clear member location
clear-member b v = (
  record { fits = rw length-replicate v.fits },
  λ p h. all_set_new (location b h) b.set_locs (length b.bitset) p,
  refl,
)

exponent-lt : (e : ℕ) → 2 ^ e < 2 ^ 63 → e < 63
exponent-lt e h = elim (dec_lt e 63) [
  | yes p ↦ p
  | no p ↦
      absurd (omega (arith, pow-le-pow_right {n = 2} (omega arith) {i = 63} {j = e} (omega arith)))
]

get_size_loop-pow :
    (fuel e u : ℕ)
    → e + fuel ≡ 65
    → u ≤ 2 ^ 63
    → e ≤ 63
    → (k : ℕ) × (get_size_loop fuel u (2 ^ e) e ≡ ok (2 ^ k, k)) × (e ≤ k) × (k ≤ 63) × (u ≤ 2 ^ k)
unfolding get_size_loop
get_size_loop-pow zero e u p q r = absurd (omega arith)
get_size_loop-pow (suc fuel) e u p q r = elim (dec_lt (2 ^ e) u) [
  | no enough ↦ (e, ground arith, omega arith, r, omega arith)
  | yes more ↦
      let below = exponent-lt e (omega arith) in
      let small = pow-le-pow_right {n = 2} (omega arith) {i = suc e} {j = 63} below in
      let double : 2 ^ e * 2 % 2 ^ 64 ≡ 2 ^ suc e = omega (arith, pow-suc 2 e) in
      let (k, run, low, high, big) =
        get_size_loop-pow fuel (suc e) u (omega arith) q (omega arith) in
      (k, rw (lt→ltb (2 ^ e) u more, double, add-one) run, omega arith, high, big)
]

-- `getSize` rounds up to a power of two that is at least 512.
pub get_size-pow :
    (u : ℕ) → u ≤ 2 ^ 63 → (k : ℕ) × (get_size u ≡ ok (2 ^ k, k)) × (k ≤ 63) × (max u 512 ≤ 2 ^ k)
unfolding get_size
get_size-pow u h =
    let wanted : ℕ = if ltb u 512 then 512 else u in
    let (k, run, low, high, big) =
      get_size_loop-pow 65 0 wanted (omega arith) (ground arith) (omega arith) in
    (k, run, high, ground arith)

words : (k : ℕ) → 512 ≤ 2 ^ k → 2 ^ k - 1 < 64 * (2 ^ k / 2 ^ 6)
words zero h = absurd (omega arith)
words (suc zero) h = absurd (omega arith)
words (suc (suc zero)) h = absurd (omega arith)
words (suc (suc (suc zero))) h = absurd (omega arith)
words (suc (suc (suc (suc zero)))) h = absurd (omega arith)
words (suc (suc (suc (suc (suc zero))))) h = absurd (omega arith)
words (suc (suc (suc (suc (suc (suc j)))))) h = omega (
  arith,
  pow-suc 2 j,
  pow-suc 2 (suc j),
  pow-suc 2 (suc (suc j)),
  pow-suc 2 (suc (suc (suc j))),
  pow-suc 2 (suc (suc (suc (suc j)))),
  pow-suc 2 (suc (suc (suc (suc (suc j))))),
)

-- The constructor ends for every size up to 2^63, in a filter with its indices in the bitset, of
-- at least that many indices, which finds nothing if it has a location to look at.
pub with_size-IsValid :
    (entries locs : ℕ)
    → entries ≤ 2 ^ 63
    → (b : Bloom) × (with_size entries locs ≡ ok b)
      × IsValid b
      × (entries ≤ b.size + 1)
      × (b.set_locs ≡ locs)
      × (0 < locs → (h : ℕ) → member b h ≡ false)
unfolding with_size size_bits member all_set
with_size-IsValid entries locs h =
    let (k, run, high, big) = get_size-pow entries h in
    let b : Bloom = record {
      bitset = replicate (2 ^ k / 2 ^ 6) 0;
      elem_num = 0;
      size_exp = k;
      size = 2 ^ k - 1;
      set_locs = locs;
      shift = 64 - k;
    } in
    let fits : b.size < 64 * length b.bitset = rw length-replicate (words k (omega arith)) in
    (
      b,
      rw run refl,
      record { fits = fits },
      omega arith,
      refl,
      λ p hash. all_set_new (location b hash) locs (2 ^ k / 2 ^ 6) p,
    )
