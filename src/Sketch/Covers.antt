-- ===== src/Sketch/Covers.antt =====
-- What the rows of `CmSketch` of src/cmsketch.rs count.
use native.Mathlib.Nat.{pow-suc}
use memory_cache_rust.Prelude.{
  ℕ, zero, suc, ◌+◌, ◌-◌, ◌*◌, ◌/◌, ◌^◌, ◌≤◌, ◌<◌, min, ◌≡◌, refl, List, [], ◌∷◌, nat_beq, ltb,
  if◌then◌else◌, ok, length, length-set, replicate, arith,
}
use memory_cache_rust.Prelude.Bits.{bit_and-le}
use memory_cache_rust.Sketch.Row.{
  CmRows, IsBytes, counter, bumped, new_cm_row, get-counter, counter-lt, increment-bumped,
  bumped-IsBytes, counter-bumped, counter-new_cm_row, new_cm_row-IsBytes, length-new_cm_row,
}
use memory_cache_rust.Sketch.{CmSketch, slot, increment_rows, estimate_rows, increment, estimate}

-- Each row, with its seed.
abbrev pub Rows : (CmRows → ℕ → Type 0) → List CmRows → List ℕ → Type 0
Rows P [] ss = Unit
Rows P (r ∷ rs) [] = ⊥
Rows P (r ∷ rs) (s ∷ ss) = P r s × Rows P rs ss

-- A row that the mask keeps in range, and whose counter for `h` lies between `f h` and `b`.
pub record IsRow (mask : ℕ) (f : ℕ → ℕ) (b : ℕ) (r : CmRows) (seed : ℕ) : Type 0 where
  pub bytes : IsBytes r
  pub fits : mask < 2 * length r
  pub covers : (h : ℕ) → f h ≤ counter r (slot mask seed h)
  pub capped : (h : ℕ) → counter r (slot mask seed h) ≤ b

-- The sketch is well formed, and its counters lie between `f` and `b`.
pub record Covers (f : ℕ → ℕ) (b : ℕ) (s : CmSketch) : Type 0 where
  pub some_rows : 0 < length s.rows
  pub rows : Rows (IsRow s.mask f b) s.rows s.seed

abbrev pub bump_at : (ℕ → ℕ) → ℕ → ℕ → ℕ
bump_at f k h = if nat_beq k h then min 15 (f h + 1) else f h

module _ (mask : ℕ) (f : ℕ → ℕ) (b : ℕ) where
  pub slot-fits : (r : CmRows) (seed h : ℕ) → mask < 2 * length r → slot mask seed h / 2 < length r
  slot-fits r seed h p = omega (arith, bit_and-le (Prim.Native.Nat.bit_xor h seed) mask)

  pub bumped-IsRow :
      (k : ℕ) {r : CmRows} {seed : ℕ}
      → IsRow mask f b r seed
      → IsRow mask (bump_at f k) (b + 1) (bumped (slot mask seed k) r) seed
  bumped-IsRow k {r} {seed} v = record {
    bytes = bumped-IsBytes (slot mask seed k) r v.bytes;
    fits = rw length-set v.fits;
    covers = λ h.
        rw
          (counter-bumped (slot mask seed k) (slot mask seed h) r (slot-fits r seed k v.fits)
            v.bytes)
          (ground (arith, v.covers h, counter-lt r (slot mask seed h)));
    capped = λ h.
        rw
          (counter-bumped (slot mask seed k) (slot mask seed h) r (slot-fits r seed k v.fits)
            v.bytes)
          (ground (arith, v.capped k, v.capped h));
  }

  pub increment_rows-IsRow :
      (k : ℕ) (rs : List CmRows) (ss : List ℕ)
      → Rows (IsRow mask f b) rs ss
      → (rs' : List CmRows) × (increment_rows mask k rs ss ≡ ok rs')
        × (length rs' ≡ length rs)
        × Rows (IsRow mask (bump_at f k) (b + 1)) rs' ss
  unfolding increment_rows
  increment_rows-IsRow k [] ss v = ([], refl, refl, tt)
  increment_rows-IsRow k (r ∷ rs) [] v = absurd v
  increment_rows-IsRow k (r ∷ rs) (s ∷ ss) (v, vs) =
      let (rs', run, len, ws) = increment_rows-IsRow k rs ss vs in
      (
        bumped (slot mask s k) r ∷ rs',
        rw (increment-bumped (slot mask s k) r (slot-fits r s k v.fits) v.bytes, run),
        omega (arith, len),
        (bumped-IsRow k v, ws),
      )

  pub estimate_rows-IsRow :
      (h : ℕ) (rs : List CmRows) (ss : List ℕ) (least : ℕ)
      → Rows (IsRow mask f b) rs ss
      → f h ≤ least
      → (e : ℕ) × (estimate_rows mask h rs ss least ≡ ok e)
        × (f h ≤ e)
        × (e ≤ least)
        × (0 < length rs → (e < 16) × (e ≤ b))
  unfolding estimate_rows
  estimate_rows-IsRow h [] ss least v p = (least, refl, p, omega arith, λ q. absurd (omega arith))
  estimate_rows-IsRow h (r ∷ rs) [] least v p = absurd v
  estimate_rows-IsRow h (r ∷ rs) (s ∷ ss) least (v, vs) p =
      let val = counter r (slot mask s h) in
      let (e, run, lo, hi, small) =
        estimate_rows-IsRow h rs ss (if ltb val least then val else least) vs
          (ground (arith, v.covers h)) in
      (
        e,
        rw (get-counter (slot mask s h) r (slot-fits r s h v.fits)) run,
        lo,
        ground arith,
        λ q. (ground (arith, counter-lt r (slot mask s h)), ground (arith, v.capped h)),
      )

pub Rows-imp :
    (P Q : CmRows → ℕ → Type 0)
    → ((r : CmRows) (s : ℕ) → P r s → Q r s)
    → (rs : List CmRows) (ss : List ℕ) → Rows P rs ss
    → Rows Q rs ss
Rows-imp P Q f [] ss v = tt
Rows-imp P Q f (r ∷ rs) [] v = v
Rows-imp P Q f (r ∷ rs) (s ∷ ss) (v, vs) = (f r s v, Rows-imp P Q f rs ss vs)

pub Covers-mono : (f : ℕ → ℕ) (b c : ℕ) (s : CmSketch) → b ≤ c → Covers f b s → Covers f c s
Covers-mono f b c s h v = record {
  some_rows = v.some_rows;
  rows =
      Rows-imp (IsRow s.mask f b) (IsRow s.mask f c)
        (λ r sd w. record {
          bytes = w.bytes;
          fits = w.fits;
          covers = w.covers;
          capped = λ k. omega (arith, w.capped k);
        })
        s.rows s.seed v.rows;
}

-- An increment does not panic, counts its key up to fifteen, lowers no other count, and raises the
-- upper bound by at most one.
pub increment-Covers :
    (f : ℕ → ℕ) (b k : ℕ) (s : CmSketch)
    → Covers f b s
    → (s' : CmSketch) × (increment k s ≡ ok s') × Covers (bump_at f k) (b + 1) s'
unfolding increment
increment-Covers f b k s v =
    let (rs, run, len, ws) = increment_rows-IsRow s.mask f b k s.rows s.seed v.rows in
    (record s { rows = rs }, rw run, record { some_rows = rw len v.some_rows; rows = ws })

pub Rows-lt :
    (mask : ℕ) (f : ℕ → ℕ) (b h : ℕ) (rs : List CmRows) (ss : List ℕ)
    → 0 < length rs
    → Rows (IsRow mask f b) rs ss
    → f h < 16
Rows-lt mask f b h [] ss p v = absurd (omega arith)
Rows-lt mask f b h (r ∷ rs) [] p v = absurd v
Rows-lt mask f b h (r ∷ rs) (s ∷ ss) p (v, vs) =
    omega (arith, v.covers h, counter-lt r (slot mask s h))

-- An estimate does not panic, is a four-bit number, and lies between the bounds of the counters.
pub estimate-Covers :
    (f : ℕ → ℕ) (b h : ℕ) (s : CmSketch)
    → Covers f b s
    → (e : ℕ) × (estimate h s ≡ ok e) × (f h ≤ e) × (e ≤ b) × (e < 16)
unfolding estimate
estimate-Covers f b h s v =
    let small = Rows-lt s.mask f b h s.rows s.seed v.some_rows v.rows in
    let (e, run, lo, hi, bound) =
      estimate_rows-IsRow s.mask f b h s.rows s.seed 255 v.rows (omega arith) in
    let (small', capped) = bound v.some_rows in (e, run, lo, capped, small')

pub replicate-Rows :
    (P : CmRows → ℕ → Type 0) (n : ℕ) (r : CmRows) (s : ℕ)
    → P r s
    → Rows P (replicate n r) (replicate n s)
replicate-Rows P zero r s p = tt
replicate-Rows P (suc n) r s p = (p, replicate-Rows P n r s p)

pub even_power : (k x : ℕ) → 2 ≤ x → x ≤ 2 ^ k → 2 ^ k / 2 * 2 ≡ 2 ^ k
even_power zero x p q = absurd (omega arith)
even_power (suc k) x p q = omega (arith, pow-suc 2 k)

-- A sketch of `p` counters to a row that has counted nothing.
abbrev pub blank : ℕ → ℕ → CmSketch
blank source p = record {
  rows = replicate 4 (new_cm_row p);
  seed = replicate 4 source;
  mask = p - 1;
}

pub blank-Covers : (source p : ℕ) → p - 1 < 2 * (p / 2) → Covers (λ h. 0) 0 (blank source p)
blank-Covers source p even =
    let row : IsRow (p - 1) (λ h. 0) 0 (new_cm_row p) source = record {
      bytes = new_cm_row-IsBytes p;
      fits = omega (arith, even, length-new_cm_row p);
      covers = λ h. omega arith;
      capped = λ h. omega (arith, counter-new_cm_row p (slot (p - 1) source h));
    } in
    record {
      some_rows = omega arith;
      rows = replicate-Rows (IsRow (p - 1) (λ h. 0) 0) 4 (new_cm_row p) source row;
    }
