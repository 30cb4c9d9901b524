-- ===== src/Sketch/Uniform.antt =====
-- The rows of `CmSketch` in src/cmsketch.rs, which share one seed.
use mathlib.Core.Path.{◌≡◌, refl}
use memory_cache_rust.Prelude.{
  ℕ, zero, suc, List, [], ◌∷◌, replicate, Run, ok, panic, timeout, ◌>>=◌, >>=-eq-ok, ltb, arith,
  if◌then◌else◌, ap, ◌⊎◌, inl, inr, ◌*◌, ◌/◌, ◌^◌, ◌<◌, bit_and,
}
use memory_cache_rust.Prelude.Bits.{bit_and-le}
use memory_cache_rust.Prelude.Int.{ℤ, pos, negsuc}
use memory_cache_rust.Sketch.Row
use memory_cache_rust.Sketch.Row.{CmRows, new_cm_row}
use memory_cache_rust.Sketch.Count.{increments}
use memory_cache_rust.Sketch.{
  CmSketch, slot, next_2_power, new, increment_rows, estimate_rows, estimate, increment,
}

-- Four copies of one row, read with one seed.
pub record IsUniform (s : CmSketch) : Type 0 where
  pub row : CmRows
  pub source : ℕ
  pub rows_eq : s.rows ≡ replicate 4 row
  pub seed_eq : s.seed ≡ replicate 4 source

ℤ-cases : (z : ℤ) → ((p : ℕ) × (z ≡ pos p)) ⊎ ((m : ℕ) × (z ≡ negsuc m))
ℤ-cases (pos p) = inl (p, refl)
ℤ-cases (negsuc m) = inr (m, refl)

new-IsUniform : (source : ℕ) (n : ℤ) (s : CmSketch) → new source n ≡ ok s → IsUniform s
unfolding new
new-IsUniform source (pos zero) s e = ground arith
new-IsUniform source (pos (suc n)) s e = elim (ℤ-cases (next_2_power (pos (suc n)))) [
  | inl (p, f) ↦
      let made : ok _ ≡ ok s = rw (f, new) at e in
      record {
        row = new_cm_row p;
        source = source;
        rows_eq = ground (arith, made);
        seed_eq = ground (arith, made);
      }
  | inr (m, f) ↦ let made : panic ≡ ok s = rw (f, new) at e in absurd (ground (arith, made))
]
new-IsUniform source (negsuc n) s e = ground arith

increment_rows_uniform :
    (mask k : ℕ) (row : CmRows) (source : ℕ) (rs : List CmRows)
    → increment_rows mask k (replicate 4 row) (replicate 4 source) ≡ ok rs
    → (row' : CmRows) × (rs ≡ replicate 4 row')
unfolding increment_rows
increment_rows_uniform mask k row source rs e =
    let (row', run, rest) = >>=-eq-ok (Row.increment (slot mask source k) row) _ e in
    let done : ok (replicate 4 row') ≡ ok rs = rw run at rest in (row', cc)

pub increment-IsUniform :
    (k : ℕ) (s s' : CmSketch) → IsUniform s → increment k s ≡ ok s' → IsUniform s'
unfolding increment
increment-IsUniform k s s' u e =
    let (rs, run, made) = >>=-eq-ok (increment_rows s.mask k s.rows s.seed) _ e in
    let (row', alike) =
      increment_rows_uniform s.mask k u.row u.source rs (rw (u.rows_eq, u.seed_eq) at run) in
    record {
      row = row';
      source = u.source;
      rows_eq = ground arith;
      seed_eq = ground (arith, u.seed_eq);
    }

increments-IsUniform :
    (ks : List ℕ) (s s' : CmSketch) → IsUniform s → increments ks s ≡ ok s' → IsUniform s'
unfolding increments
increments-IsUniform [] s s' u e = let same : s ≡ s' = ground arith in rw same at u
increments-IsUniform (k ∷ ks) s s' u e =
    let (t, run, rest) = >>=-eq-ok (increment k s) _ e in
    increments-IsUniform ks t s' (increment-IsUniform k s t u run) rest

-- Whatever a new sketch has counted, its four rows are one row, read at one place.
pub new-increments-IsUniform :
    (source : ℕ) (n : ℤ) (ks : List ℕ) (s : CmSketch)
    → (new source n >>= increments ks) ≡ ok s
    → IsUniform s
new-increments-IsUniform source n ks s e =
    let (t, made, run) = >>=-eq-ok (new source n) _ e in
    increments-IsUniform ks t s (new-IsUniform source n t made) run

get-lt : (n : ℕ) (row : CmRows) (v : ℕ) → Row.get n row ≡ ok v → v < 16
unfolding Row.get
get-lt n row v e =
    let (b, read, got) = >>=-eq-ok (Row.at row (n / 2)) _ e in
    omega (arith, ap value got, bit_and-le (b / 2 ^ (bit_and n 1 * 4)) 0x0f)
  where
    value : Run ℕ → ℕ
    value (ok w) = w
    value panic = 0
    value timeout = 0

four_reads :
    (m : Run ℕ)
    → ((v : ℕ) → m ≡ ok v → v < 16)
    → (m >>= λ a. m >>= λ b. m >>= λ c. m >>= λ d.
        let x : ℕ = if ltb a 255 then a else 255 in
        let y : ℕ = if ltb b x then b else x in
        let z : ℕ = if ltb c y then c else y in ok (if ltb d z then d else z))
      ≡ m
four_reads (ok v) h = let lt = h v refl in ground arith
four_reads panic h = refl
four_reads timeout h = refl

-- The estimate of a sketch of four copies of one row, with one seed, is what a single row reads.
pub estimate-IsUniform :
    (h : ℕ) (s : CmSketch) (u : IsUniform s) → estimate h s ≡ Row.get (slot s.mask u.source h) u.row
unfolding estimate estimate_rows
estimate-IsUniform h s u =
    rw (u.rows_eq, u.seed_eq)
      (four_reads (Row.get (slot s.mask u.source h) u.row) (get-lt (slot s.mask u.source h) u.row))
