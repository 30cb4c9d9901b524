-- ===== src/Bloom/Member.antt =====
-- Membership in the filter of src/bloom/bbloom.rs.
use memory_cache_rust.Prelude.{
  ℕ, zero, suc, ◌+◌, ◌*◌, ◌/◌, ◌%◌, ◌^◌, ◌<◌, ◌≡◌, refl, Bool, true, ◌&&◌, List, ok, length,
  length-set, arith,
}
use memory_cache_rust.Prelude.Bits.{bit_and-le}
use memory_cache_rust.Bloom.Cells.{bit_of, marked, set_bit-marked, isset-bit_of, bit_of-marked}
use memory_cache_rust.Bloom.{Bloom, location, add_from, has_from, has}

-- Every index below the mask stands for a word of the bitset.
pub record IsValid (b : Bloom) : Type 0 where
  pub fits : b.size < 64 * length b.bitset

-- The bits at `loc i` to `loc (i + n - 1)`: whether all are set, and setting them all.
module _ (loc : ℕ → ℕ) where
  unfoldable pub all_set : ℕ → ℕ → List ℕ → Bool
  all_set zero i bits = true
  all_set (suc n) i bits = bit_of bits (loc i) && all_set n (i + 1) bits

  pub mark_all : ℕ → ℕ → List ℕ → List ℕ
  mark_all zero i bits = bits
  mark_all (suc n) i bits = mark_all n (i + 1) (marked (loc i) bits)

  pub length-mark_all : (n i : ℕ) (bits : List ℕ) → length (mark_all n i bits) ≡ length bits
  unfolding mark_all
  length-mark_all zero i bits = refl
  length-mark_all (suc n) i bits =
      omega (arith, length-mark_all n (i + 1) (marked (loc i) bits), length-set bits (loc i / 64))

  module _ (len : ℕ) (fits : (i : ℕ) → loc i < 64 * len) where
    pub bit_of-mark_all :
        (n i j : ℕ) (bits : List ℕ)
        → length bits ≡ len
        → bit_of bits j ≡ true
        → bit_of (mark_all n i bits) j ≡ true
    unfolding mark_all
    bit_of-mark_all zero i j bits e h = h
    bit_of-mark_all (suc n) i j bits e h =
        bit_of-mark_all n (i + 1) j (marked (loc i) bits) (rw length-set e)
          (rw (bit_of-marked (loc i) j bits (omega (arith, fits i))) (ground arith))

    pub all_set-mark_all :
        (n i : ℕ) (bits : List ℕ) → length bits ≡ len → all_set n i (mark_all n i bits) ≡ true
    unfolding all_set mark_all
    all_set-mark_all zero i bits e = refl
    all_set-mark_all (suc n) i bits e =
        let bits' = marked (loc i) bits in
        let e' : length bits' ≡ len = rw length-set e in
        let here : bit_of bits' (loc i) ≡ true =
          rw (bit_of-marked (loc i) (loc i) bits (omega (arith, fits i))) (ground arith) in
        rw (bit_of-mark_all n (i + 1) (loc i) bits' e' here, all_set-mark_all n (i + 1) bits' e')

  pub all_set_mono :
      (bits bits' : List ℕ)
      → ((j : ℕ) → bit_of bits j ≡ true → bit_of bits' j ≡ true)
      → (n i : ℕ) → all_set n i bits ≡ true
      → all_set n i bits' ≡ true
  unfolding all_set
  all_set_mono bits bits' up zero i h = refl
  all_set_mono bits bits' up (suc n) i h =
      ground (arith, up (loc i), all_set_mono bits bits' up n (i + 1))

-- Whether the filter reports a hash.
unfoldable pub member : Bloom → ℕ → Bool
unfolding all_set
member b hash = all_set (location b hash) b.set_locs 0 b.bitset

pub location-fits : (b : Bloom) (hash i : ℕ) → IsValid b → location b hash i < 64 * length b.bitset
unfolding location
location-fits b hash i v = omega (
  arith,
  bit_and-le
      ((hash / 2 ^ b.shift + i * (hash * 2 ^ b.shift % 2 ^ 64 / 2 ^ b.shift) % 2 ^ 64) % 2 ^ 64)
      b.size,
)

has_from-all_set :
    (n i hash : ℕ) (b : Bloom)
    → IsValid b
    → has_from n i hash b ≡ ok (all_set (location b hash) n i b.bitset)
unfolding has_from all_set
has_from-all_set zero i hash b v = refl
has_from-all_set (suc n) i hash b v =
    rw (isset-bit_of (location b hash i) b.bitset (omega (arith, location-fits b hash i v)))
      (ground (arith, has_from-all_set n (i + 1) hash b v))

-- A lookup does not fault.
pub has-member : (hash : ℕ) (b : Bloom) → IsValid b → has hash b ≡ ok (member b hash)
unfolding has member
has-member hash b v = has_from-all_set b.set_locs 0 hash b v

pub add_from-mark_all :
    (n i hash : ℕ) (b : Bloom)
    → IsValid b
    → (e : ℕ) × (add_from n i hash b
        ≡ ok (record b { bitset = mark_all (location b hash) n i b.bitset; elem_num = e }))
unfolding add_from mark_all location
add_from-mark_all zero i hash b v = (b.elem_num, refl)
add_from-mark_all (suc n) i hash b v =
    let b' : Bloom = record b {
      bitset = marked (location b hash i) b.bitset;
      elem_num = (b.elem_num + 1) % 2 ^ 64;
    } in
    let (e, run) = add_from-mark_all n (i + 1) hash b' (record { fits = rw length-set v.fits }) in
    (
      e,
      rw (set_bit-marked (location b hash i) b.bitset (omega (arith, location-fits b hash i v)))
          run,
    )
