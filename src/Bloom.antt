-- ===== src/Bloom.antt =====
-- src/bloom/bbloom.rs: the Bloom filter that keeps the doors of the admission policy.
pub mod Cells
pub mod Member
pub mod Insert
use memory_cache_rust.Prelude.Int.{ℤ}
use memory_cache_rust.Prelude.{
  ℕ, zero, suc, ◌+◌, ◌-◌, ◌*◌, ◌/◌, ◌%◌, ◌^◌, bit_and, bit_or, Bool, true, false, List, [], ◌∷◌,
  Option, none, some, ltb, nat_beq, if◌then◌else◌, Run, ok, panic, timeout, ◌>>=◌, length,
  replicate, set, get_elem?, get_or,
}

-- The floating point operations that the sizes are computed with. `lit m d` is m / 10 ^ d.
pub record Floats : Type 1 where
  pub F : Type 0
  pub lit : ℕ → ℕ → F
  pub neg : F → F
  pub mul : F → F → F
  pub div : F → F → F
  pub powf : F → F → F
  pub ln : F → F
  pub ceil : F → F
  pub lt : F → F → Bool
  pub to_u64 : F → ℕ
  pub of_i64 : ℤ → F

-- `bitset` holds the bit patterns of the `i64` words.
pub record Bloom : Type 0 where
  pub bitset : List ℕ
  pub elem_num : ℕ
  pub size_exp : ℕ
  pub size : ℕ
  pub set_locs : ℕ
  pub shift : ℕ

abbrev pub mask_table : List ℕ
mask_table = 1 ∷ 2 ∷ 4 ∷ 8 ∷ 16 ∷ 32 ∷ 64 ∷ 128 ∷ []

module _ (fl : Floats) where
  open fl use {F, lit, neg, mul, div, powf, ln, ceil, lt, to_u64}

  unfoldable pub calc_size_by_wrong_positives : F → F → ℕ × ℕ
  calc_size_by_wrong_positives num_entries wrongs =
      let ln2 = lit 69314718056 11 in
      let size = div (mul (mul (neg (lit 1 0)) num_entries) (ln wrongs)) (powf ln2 (lit 2 0)) in
      let locs = ceil (div (mul ln2 size) num_entries) in (to_u64 size, to_u64 locs)

  -- The two values that `Bloom::new` computes first.
  unfoldable pub entries_and_locs : F → F → ℕ × ℕ
  entries_and_locs num_entries wrongs =
      if lt wrongs (lit 1 0)
      then calc_size_by_wrong_positives num_entries wrongs
      else (to_u64 num_entries, to_u64 wrongs)

-- The loop of `getSize`. Past 2^63 the shift drops the one bit and the loop never ends; 64 rounds
-- are all that it can take otherwise.
unfoldable pub get_size_loop : ℕ → ℕ → ℕ → ℕ → Run (ℕ × ℕ)
get_size_loop zero u size exponent = timeout
get_size_loop (suc fuel) u size exponent =
    let rest = get_size_loop fuel u (size * 2 % 2 ^ 64) (exponent + 1) in
    if ltb size u then rest else ok (size, exponent)

unfoldable pub get_size : ℕ → Run (ℕ × ℕ)
get_size u = get_size_loop 65 (if ltb u 512 then 512 else u) 1 0

-- `Bloom::size`: a bitset of `sz` bits.
unfoldable pub size_bits : ℕ → Bloom → Bloom
size_bits sz b = record b { bitset = replicate (sz / 2 ^ 6) 0 }

-- `Bloom::new` after the floating point part.
unfoldable pub with_size : ℕ → ℕ → Run Bloom
with_size entries locs = do
  (sz, exponent) ← get_size entries
  ok (
      size_bits sz (record {
        bitset = [];
        elem_num = 0;
        size_exp = exponent;
        size = sz - 1;
        set_locs = locs;
        shift = 64 - exponent;
      }))

unfoldable pub new : (fl : Floats) → fl.F → fl.F → Run Bloom
new fl num_entries wrongs =
    let (entries, locs) = entries_and_locs fl num_entries wrongs in with_size entries locs

-- `set` and `isset` go through a raw pointer; out of range, which the code leaves undefined, they
-- are a panic here.
unfoldable pub set_bit : ℕ → List ℕ → Run (List ℕ)
set_bit idx bits =
    let step = idx / 2 ^ 6 in
    elim (get_elem? bits step) [
      | none ↦ panic
      | some w ↦ ok (set bits step (bit_or w (get_or mask_table (idx % 8) 0)))
    ]

unfoldable pub isset : ℕ → List ℕ → Run Bool
isset idx bits = elim (get_elem? bits (idx / 2 ^ 6)) [
  | none ↦ panic
  | some w ↦ ok (nat_beq (bit_and (w / 2 ^ (idx % 8)) 1) 1)
]

-- `(h + (i * l)) & self.size`, on 64-bit words.
unfoldable pub location : Bloom → ℕ → ℕ → ℕ
location b hash i =
    let h = hash / 2 ^ b.shift in
    let l = hash * 2 ^ b.shift % 2 ^ 64 / 2 ^ b.shift in
    bit_and ((h + i * l % 2 ^ 64) % 2 ^ 64) b.size

-- The loop of `add` at `i`, with `left` rounds to go.
unfoldable pub add_from : ℕ → ℕ → ℕ → Bloom → Run Bloom
add_from zero i hash b = ok b
add_from (suc left) i hash b = do
  bits ← set_bit (location b hash i) b.bitset
  add_from left (i + 1) hash (record b { bitset = bits; elem_num = (b.elem_num + 1) % 2 ^ 64 })

unfoldable pub add : ℕ → Bloom → Run Bloom
add hash b = add_from b.set_locs 0 hash b

-- The loop of `has`.
unfoldable pub has_from : ℕ → ℕ → ℕ → Bloom → Run Bool
has_from zero i hash b = ok true
has_from (suc left) i hash b = do
  hit ← isset (location b hash i) b.bitset
  let rest = has_from left (i + 1) hash b
  if hit then rest else ok false

unfoldable pub has : ℕ → Bloom → Run Bool
has hash b = has_from b.set_locs 0 hash b

unfoldable pub add_if_not_has : ℕ → Bloom → Run (Bool × Bloom)
add_if_not_has hash b = do
  known ← has hash b
  if known then ok (false, b) else (do b' ← add hash b; ok (true, b'))

unfoldable pub clear : Bloom → Bloom
clear b = record b { bitset = replicate (length b.bitset) 0 }

-- `json_encoder`: it stores to each byte the low byte of an address in the bitset, which starts at `address`, in place
-- of what stands there. `to_vec` is the JSON writer, which may fail.
unfoldable pub exported_from : ℕ → ℕ → ℕ → List ℕ
exported_from address i zero = []
exported_from address i (suc n) = (address + 8 * i) % 256 ∷ exported_from address (suc i) n

unfoldable pub json_encoder : (List ℕ → ℕ → Option (List ℕ)) → ℕ → Bloom → List ℕ
json_encoder to_vec address b =
    elim (to_vec (exported_from address 0 (length b.bitset * 8)) b.set_locs) [
      | none ↦ []
      | some result ↦ result
    ]
