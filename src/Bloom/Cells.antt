-- ===== src/Bloom/Cells.antt =====
-- One bit of the filter of src/bloom/bbloom.rs: what `set` writes and `isset` reads.
use native.Mathlib.Decide.{ℕ_discrete}
use memory_cache_rust.Prelude.{
  ℕ, zero, suc, ◌/◌, ◌%◌, ◌^◌, ◌<◌, bit_or, ◌≡◌, refl, Bool, false, ◌||◌, ◌&&◌, List, nat_beq, ok,
  length, set, get_or, get_elem?-eq-get_or, get_or-set_self, get_or-set_ne, arith, get_or-replicate,
  replicate,
}
use memory_cache_rust.Prelude.Bits.{
  test_bit, test_bit_lem, test_bit-bit_or, test_bit-pow, test_bit-pow_ne, test_bit-le,
  zero-test_bit,
}
use memory_cache_rust.Bloom.{mask_table, set_bit, isset}

-- The bit that an index reads: one of the eight lowest of its word.
pub bit_of : List ℕ → ℕ → Bool
bit_of bits idx = nat_beq (test_bit (idx % 8) (get_or bits (idx / 64) 0)) 1

abbrev pub marked : ℕ → List ℕ → List ℕ
marked idx bits = set bits (idx / 64) (bit_or (get_or bits (idx / 64) 0) (2 ^ (idx % 8)))

mask-eq-pow : (k : ℕ) → k < 8 → get_or mask_table k 0 ≡ 2 ^ k
mask-eq-pow zero h = refl
mask-eq-pow (suc zero) h = refl
mask-eq-pow (suc (suc zero)) h = refl
mask-eq-pow (suc (suc (suc zero))) h = refl
mask-eq-pow (suc (suc (suc (suc zero)))) h = refl
mask-eq-pow (suc (suc (suc (suc (suc zero))))) h = refl
mask-eq-pow (suc (suc (suc (suc (suc (suc zero)))))) h = refl
mask-eq-pow (suc (suc (suc (suc (suc (suc (suc zero))))))) h = refl
mask-eq-pow (suc (suc (suc (suc (suc (suc (suc (suc k)))))))) h = absurd (omega arith)

-- A write in range succeeds.
pub set_bit-marked :
    (idx : ℕ) (bits : List ℕ) → idx / 64 < length bits → set_bit idx bits ≡ ok (marked idx bits)
unfolding set_bit
set_bit-marked idx bits h =
    ground (arith, get_elem?-eq-get_or bits (idx / 64) 0 h, mask-eq-pow (idx % 8))

-- A read in range succeeds.
pub isset-bit_of :
    (idx : ℕ) (bits : List ℕ) → idx / 64 < length bits → isset idx bits ≡ ok (bit_of bits idx)
unfolding isset bit_of
isset-bit_of idx bits h = ground (
  arith,
  get_elem?-eq-get_or bits (idx / 64) 0 h,
  test_bit_lem (idx % 8) (get_or bits (idx / 64) 0),
)

-- Two indices share a bit if their words and their remainders by eight agree.
abbrev pub same_cell : ℕ → ℕ → Bool
same_cell i j = nat_beq (i / 64) (j / 64) && nat_beq (i % 8) (j % 8)

-- A write sets its own bit, with all the indices that share it, and no other.
pub bit_of-marked :
    (i j : ℕ) (bits : List ℕ)
    → i / 64 < length bits
    → bit_of (marked i bits) j ≡ (same_cell i j || bit_of bits j)
unfolding bit_of
bit_of-marked i j bits h =
    let w = get_or bits (i / 64) 0 in
    let v = bit_or w (2 ^ (i % 8)) in
    elim (ℕ_discrete (i / 64) (j / 64)) [
      | no other ↦ rw (get_or-set_ne bits (i / 64) (j / 64) v 0 other) (ground arith)
      | yes same ↦ rw (← same) (
          rw (get_or-set_self bits (i / 64) v 0 h, test_bit-bit_or)
            (elim (ℕ_discrete (i % 8) (j % 8)) [
              | yes e ↦ rw (← e) (rw test_bit-pow (ground (arith, test_bit-le (i % 8) w)))
              | no d ↦ ground (arith, test_bit-pow_ne (j % 8) (i % 8) (λ e. d (omega arith)))
            ]))
    ]

pub bit_of-replicate : (n j : ℕ) → bit_of (replicate n 0) j ≡ false
unfolding bit_of
bit_of-replicate n j = rw (get_or-replicate, zero-test_bit) refl
