-- ===== src/Units/Counters.antt =====
-- The tests of src/cmsketch.rs, and that of `has` in src/bloom/bbloom.rs.
use memory_cache_rust.Prelude.{
  ℕ, zero, suc, ◌+◌, ◌-◌, Bool, true, false, not, List, [], ◌∷◌, Run, ok, ◌>>=◌, nat_beq, ◌&&◌,
  if◌then◌else◌, get_elem?,
}
use memory_cache_rust.Prelude.Int.{pos}
use memory_cache_rust.Bloom
use memory_cache_rust.Bloom.{Floats}
use memory_cache_rust.Sketch
use memory_cache_rust.Sketch.{CmSketch, cm_depth}
use memory_cache_rust.Sketch.Print.{string}
use memory_cache_rust.Store.{unwrap}
use memory_cache_rust.Units.{assert}

abbrev is_text : List ℕ → List ℕ → Bool
is_text [] [] = true
is_text [] (b ∷ bs) = false
is_text (a ∷ as_) [] = false
is_text (a ∷ as_) (b ∷ bs) = nat_beq a b && is_text as_ bs

module _ (source : ℕ) where
  unfoldable pub increment_rounds : ℕ → ℕ → CmSketch → Run CmSketch
  increment_rounds zero i s = ok s
  increment_rounds (suc left) i s = do s' ← Sketch.increment i s; increment_rounds left (i + 1) s'

  unfoldable pub test_sketch_clear : Run CmSketch
  unfolding increment_rounds
  test_sketch_clear = do
    s ← Sketch.new source (pos 16)
    s' ← increment_rounds 16 0 s
    ok (Sketch.clear s')

  unfoldable pub test_sketch_reset : Run (Unit {0})
  test_sketch_reset = do
    s ← Sketch.new source (pos 16)
    s₁ ← Sketch.increment 1 s
    s₂ ← Sketch.increment 1 s₁
    s₃ ← Sketch.increment 1 s₂
    s₄ ← Sketch.increment 1 s₃
    e ← Sketch.estimate 1 (Sketch.reset s₄)
    assert (nat_beq e 2)

  unfoldable pub test_sketch_estimate : Run (Unit {0})
  test_sketch_estimate = do
    s ← Sketch.new source (pos 16)
    s₁ ← Sketch.increment 1 s
    s₂ ← Sketch.increment 1 s₁
    s₃ ← Sketch.increment 9 s₂
    e₁ ← Sketch.estimate 1 s₃
    a₁ ← assert (nat_beq e₁ 2)
    e₂ ← Sketch.estimate 0 s₃
    assert (nat_beq e₂ 0)

  -- The loop over the rows, which a row like the first one breaks.
  unfoldable pub row_rounds : ℕ → ℕ → CmSketch → Run (Unit {0})
  row_rounds zero i s = ok tt
  row_rounds (suc left) i s = do
    row ← unwrap (get_elem? s.rows i)
    first ← unwrap (get_elem? s.rows 0)
    text ← string row
    text₀ ← string first
    let rest = (do a ← assert (nat_beq i (cm_depth - 1)); row_rounds left (i + 1) s)
    if is_text text text₀ then ok tt else rest

  unfoldable pub test_sketch_increment : Run (Unit {0})
  unfolding row_rounds
  test_sketch_increment = do
    s ← Sketch.new source (pos 16)
    s₁ ← Sketch.increment 1 s
    s₂ ← Sketch.increment 5 s₁
    s₃ ← Sketch.increment 9 s₂
    row_rounds cm_depth 0 s₃

  unfoldable pub test_sketch : Run (Unit {0})
  test_sketch = do s ← Sketch.new source (pos 5); assert (nat_beq s.mask 7)

-- `N * 10` as a floating point number is `lit 655360 0`.
unfoldable pub test_has : Floats → Run (Unit {0})
test_has fl = do
  bf ← Bloom.new fl (fl.lit 655_360 0) (fl.lit 7 0)
  v₁ ← Bloom.has 18_272_025_040_905_874_063 bf
  a₁ ← assert (not v₁)
  v₂ ← Bloom.has 18_272_025_040_905_874_063 bf
  r ← Bloom.add_if_not_has 18_272_025_040_905_874_063 bf
  v₃ ← Bloom.has 18_272_025_040_905_874_063 r.1
  assert v₃
