-- ===== src/Sketch/Count.antt =====
-- What `CmSketch` of src/cmsketch.rs counts.
use memory_cache_rust.Prelude.{
  ℕ, zero, suc, ◌+◌, ◌/◌, ◌^◌, ◌≤◌, min, ◌≡◌, refl, List, [], ◌∷◌, nat_beq, if◌then◌else◌, Run, ok,
  panic, ◌>>=◌, map, length, length-map, arith,
}
use memory_cache_rust.Prelude.Int.{pos, as_i64}
use memory_cache_rust.Sketch.Power.{next_2_power_small}
use memory_cache_rust.Sketch.Row
use memory_cache_rust.Sketch.Row.{
  CmRows, IsBytes, counter, bumped, new_cm_row, get-counter, counter-lt, increment-bumped,
  bumped-IsBytes, counter-bumped, counter-new_cm_row, counter-reset, counter-clear,
  new_cm_row-IsBytes, length-new_cm_row, reset-IsBytes, length-reset, clear-IsBytes, length-clear,
}
use memory_cache_rust.Sketch.{
  CmSketch, slot, new, increment_rows, increment, estimate, reset, clear,
}
use memory_cache_rust.Sketch.Covers.{
  Covers, IsRow, Rows, blank, blank-Covers, bump_at, estimate-Covers, even_power, increment-Covers,
}

-- A sketch for between two and 2^62 counters is built without panic, and counts nothing yet.
pub new-Covers :
    (source n : ℕ)
    → 2 ≤ n
    → n ≤ 2 ^ 62
    → (s : CmSketch) × (new source (pos n) ≡ ok s) × Covers (λ h. 0) 0 s
unfolding new
new-Covers source zero lo hi = absurd (omega arith)
new-Covers source (suc n) lo hi =
    let (k, e, low, high) = next_2_power_small (suc n) (omega arith) (omega arith) in
    (
      blank source (2 ^ k),
      rw (e, new) refl,
      blank-Covers source (2 ^ k) (omega (arith, even_power k (suc n) lo low)),
    )

-- A sketch for one counter is built, with rows of no bytes: its first increment panics.
pub increment-new_one :
    (source k : ℕ) → (s : CmSketch) × (new source (pos 1) ≡ ok s) × (increment k s ≡ panic)
unfolding new increment increment_rows Row.increment Row.at new_cm_row as_i64
increment-new_one source k = (_, refl, refl)

-- The counters after a run of increments.
unfoldable pub increments : List ℕ → CmSketch → Run CmSketch
increments [] s = ok s
increments (k ∷ ks) s = do s' ← increment k s; increments ks s'

-- How often a key stands in a list.
unfoldable pub count : ℕ → List ℕ → ℕ
count h [] = 0
count h (k ∷ ks) = (if nat_beq k h then 1 else 0) + count h ks

increments-Covers :
    (f : ℕ → ℕ) (b : ℕ) (ks : List ℕ) (s : CmSketch) (h : ℕ)
    → Covers f b s
    → (s' : CmSketch) × (increments ks s ≡ ok s')
      × ((g : ℕ → ℕ) × Covers g (b + length ks) s' × (min 15 (f h + count h ks) ≤ g h))
unfolding increments count
increments-Covers f b [] s h v =
    let e : b + 0 ≡ b = omega arith in (s, refl, (f, rw e v, omega arith))
increments-Covers f b (k ∷ ks) s h v =
    let (s₁, run₁, v₁) = increment-Covers f b k s v in
    let (s₂, run₂, (g, w, lo)) = increments-Covers (bump_at f k) (b + 1) ks s₁ h v₁ in
    let e : b + suc (length ks) ≡ b + 1 + length ks = omega arith in
    (s₂, rw run₁ run₂, (g, rw e w, ground arith))

-- A new sketch for between two and 2^62 counters, after any run of increments, estimates every key
-- without panic, at no less than its number of increments, or than fifteen if that is less, and at
-- no more than fifteen and the number of all increments.
pub estimate-increments :
    (source n : ℕ) (ks : List ℕ) (h : ℕ)
    → 2 ≤ n
    → n ≤ 2 ^ 62
    → (s' : CmSketch) × ((new source (pos n) >>= increments ks) ≡ ok s')
      × ((e : ℕ) × (estimate h s' ≡ ok e) × (min 15 (count h ks) ≤ e) × (e ≤ min 15 (length ks)))
estimate-increments source n ks h lo hi =
    let (s, made, v) = new-Covers source n lo hi in
    let (s', run, (g, w, many)) = increments-Covers (λ h. 0) 0 ks s h v in
    let (e, est, low, high, small) = estimate-Covers g (0 + length ks) h s' w in
    (s', rw made run, (e, est, omega arith, omega arith))

map-Rows :
    (mask : ℕ) (f g : ℕ → ℕ) (b c : ℕ) (u : CmRows → CmRows)
    → ((r : CmRows) (s : ℕ) → IsRow mask f b r s → IsRow mask g c (u r) s)
    → (rs : List CmRows) (ss : List ℕ) → Rows (IsRow mask f b) rs ss
    → Rows (IsRow mask g c) (map u rs) ss
map-Rows mask f g b c u h [] ss v = tt
map-Rows mask f g b c u h (r ∷ rs) [] v = v
map-Rows mask f g b c u h (r ∷ rs) (s ∷ ss) (v, vs) = (h r s v, map-Rows mask f g b c u h rs ss vs)

-- On a well-formed sketch `reset` halves both bounds of the counters, `clear` makes every counter
-- zero, and both keep the sketch well formed.
pub reset-clear-Covers :
    (f : ℕ → ℕ) (b : ℕ) (s : CmSketch)
    → Covers f b s
    → Covers (λ h. f h / 2) (b / 2) (reset s) × Covers (λ h. 0) 0 (clear s)
unfolding reset clear
reset-clear-Covers f b s v = (
  record {
    some_rows = rw length-map v.some_rows;
    rows =
        map-Rows s.mask f _ b (b / 2) Row.reset
          (λ r sd w. record {
            bytes = reset-IsBytes r w.bytes;
            fits = rw length-reset w.fits;
            covers = λ h. omega (arith, w.covers h, counter-reset r (slot s.mask sd h) w.bytes);
            capped = λ h. omega (arith, w.capped h, counter-reset r (slot s.mask sd h) w.bytes);
          })
          s.rows s.seed v.rows;
  },
  record {
    some_rows = rw length-map v.some_rows;
    rows =
        map-Rows s.mask f _ b 0 Row.clear
          (λ r sd w. record {
            bytes = clear-IsBytes r;
            fits = rw length-clear w.fits;
            covers = λ h. omega arith;
            capped = λ h. omega (arith, counter-clear r (slot s.mask sd h));
          })
          s.rows s.seed v.rows;
  },
)
