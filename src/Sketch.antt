-- ===== src/Sketch.antt =====
-- src/cmsketch.rs: the count-min sketch of four-bit counters. A row is in `Sketch/Row.antt`.
pub mod Row
pub mod Power
pub mod Print
pub mod Covers
pub mod Count
pub mod Uniform
use memory_cache_rust.Prelude.{
  ℕ, zero, suc, ◌+◌, ◌-◌, ◌/◌, ◌%◌, ◌^◌, bit_and, bit_or, bit_xor, Bool, List, [], ◌∷◌, ltb,
  replicate, Run, ok, panic, ◌>>=◌, if◌then◌else◌, map,
}
use memory_cache_rust.Prelude.Int.{ℤ, pos, negsuc, as_u64, as_i64}
use Row.{CmRows, new_cm_row}

-- `x |= x >> k` on the bit pattern of an `i64`: the shift copies the sign.
abbrev pub shifted : ℕ → ℕ → ℕ
shifted k w = if ltb w (2 ^ 63) then w / 2 ^ k else bit_or (w / 2 ^ k) (2 ^ 64 - 2 ^ (64 - k))

abbrev pub smear : ℕ → ℕ → ℕ
smear k w = bit_or w (shifted k w)

unfoldable pub next_2_power : ℤ → ℤ
next_2_power x =
    let x₀ = (as_u64 x + 2 ^ 64 - 1) % 2 ^ 64 in
    let x₁ = smear 1 x₀ in
    let x₂ = smear 2 x₁ in
    let x₃ = smear 4 x₂ in
    let x₄ = smear 8 x₃ in let x₅ = smear 16 x₄ in let x₆ = smear 32 x₅ in as_i64 (x₆ + 1)

abbrev pub cm_depth : ℕ
cm_depth = 4

pub record CmSketch : Type 0 where
  pub rows : List CmRows
  pub seed : List ℕ
  pub mask : ℕ

-- `source` is the number that the generator, seeded by the clock, draws once before the loop.
-- A power of two past `i64::MAX` wraps to a negative number, and the row's allocation panics.
unfoldable pub new : ℕ → ℤ → Run CmSketch
unfolding next_2_power
new source (negsuc n) = panic
new source (pos zero) = panic
new source (pos (suc n)) = elim (next_2_power (pos (suc n))) [
  | pos num_counter ↦ ok (record {
    rows = replicate cm_depth (new_cm_row num_counter);
    seed = replicate cm_depth source;
    mask = num_counter - 1;
  })
  | negsuc m ↦ panic
]

-- The counter of a row that a hash falls on.
abbrev pub slot : ℕ → ℕ → ℕ → ℕ
slot mask seed hashed = bit_and (bit_xor hashed seed) mask

-- The loops over the rows: row `i` is read with seed `i`, which panics past the last seed.
unfoldable pub increment_rows : ℕ → ℕ → List CmRows → List ℕ → Run (List CmRows)
increment_rows mask hashed [] seeds = ok []
increment_rows mask hashed (r ∷ rs) [] = panic
increment_rows mask hashed (r ∷ rs) (s ∷ ss) = do
  r' ← Row.increment (slot mask s hashed) r
  rs' ← increment_rows mask hashed rs ss
  ok (r' ∷ rs')

unfoldable pub estimate_rows : ℕ → ℕ → List CmRows → List ℕ → ℕ → Run ℕ
estimate_rows mask hashed [] seeds least = ok least
estimate_rows mask hashed (r ∷ rs) [] least = panic
estimate_rows mask hashed (r ∷ rs) (s ∷ ss) least = do
  val ← Row.get (slot mask s hashed) r
  estimate_rows mask hashed rs ss (if ltb val least then val else least)

unfoldable pub increment : ℕ → CmSketch → Run CmSketch
increment hashed s = do
  rows ← increment_rows s.mask hashed s.rows s.seed
  ok (record s { rows = rows })

unfoldable pub estimate : ℕ → CmSketch → Run ℕ
estimate hashed s = estimate_rows s.mask hashed s.rows s.seed 255

unfoldable pub reset : CmSketch → CmSketch
reset s = record s { rows = map Row.reset s.rows }

unfoldable pub clear : CmSketch → CmSketch
clear s = record s { rows = map Row.clear s.rows }
