-- ===== src/Cache/Replay/Chosen.antt =====
-- What `DefaultPolicy::add` of src/policy.rs chooses for eviction, in every state: a pair of its sample.
use memory_cache_rust.Prelude.{
  ℕ, ◌+◌, ◌≤◌, ◌-◌, sym, panic, ◌^◌, ◌≡◌, inl, inr, refl, ◌∙◌, true, false, List, [], ◌∷◌, none,
  some, ok, >>=-eq-ok, subst_ok, nat_eq, Bool-cases, Option-cases, arith, if◌then◌else◌, ltb, All,
  All-set, All-get_or, length, get_elem?, get_elem?-eq-get_or, lt→ltb,
}
use memory_cache_rust.Bloom
use memory_cache_rust.Policy.{Least, no_least, scan, drop_least}
use memory_cache_rust.Policy.Scan.{dropped}
use memory_cache_rust.SampledLfu.{PolicyPair}
use memory_cache_rust.Sketch
use memory_cache_rust.Sketch.{CmSketch, slot}
use memory_cache_rust.Sketch.Row
use memory_cache_rust.Sketch.Row.{CmRows}
use memory_cache_rust.TinyLfu
use memory_cache_rust.TinyLfu.{TinyLfu}

estimate_rows-le :
    (mask hashed : ℕ) (rs : List CmRows) (ss : List ℕ) (least e : ℕ)
    → Sketch.estimate_rows mask hashed rs ss least ≡ ok e
    → e ≤ least
unfolding Sketch.estimate_rows
estimate_rows-le mask hashed [] ss least e q = subst_ok (λ x. x ≤ least) q (omega arith)
estimate_rows-le mask hashed (r ∷ rs) [] least e q = absurd (ground arith)
estimate_rows-le mask hashed (r ∷ rs) (s ∷ ss) least e q =
    let (val, read, rest) = >>=-eq-ok (Row.get (slot mask s hashed) r) _ q in
    let le = estimate_rows-le mask hashed rs ss (if ltb val least then val else least) e rest in
    ground (arith, le)

-- An estimate that is returned is small, in every state.
pub estimate-le : (key : ℕ) (t : TinyLfu) (e : ℕ) → TinyLfu.estimate key t ≡ ok e → e ≤ 256
unfolding TinyLfu.estimate Sketch.estimate
estimate-le key t e q =
    let (hits, read, rest) = >>=-eq-ok (Sketch.estimate key t.freq) _ q in
    let small : hits ≤ 255 =
      estimate_rows-le t.freq.mask key t.freq.rows t.freq.seed 255 hits read in
    let (door, asked, same) = >>=-eq-ok (Bloom.has key t.door) _ rest in
    subst_ok (λ x. x ≤ 256) same (ground (arith, small))

dropped_none : (i : ℕ) → drop_least i [] ≡ panic
unfolding drop_least
dropped_none i = refl

dropped_out :
    (i : ℕ) (sample : List PolicyPair) (last : PolicyPair)
    → get_elem? sample (length sample - 1) ≡ some last
    → get_elem? sample i ≡ none
    → drop_least i sample ≡ panic
unfolding drop_least
dropped_out i sample last p q = rw (p, drop_least) (rw q refl)

module _ (P : PolicyPair → Type 0) where
  scan_from-All :
      (admit : TinyLfu) (i : ℕ) (sample : List PolicyPair) (least l : Least)
      → All P sample
      → P (least.min_key, least.min_cost)
      → scan admit i sample least ≡ ok l
      → P (l.min_key, l.min_cost)
  unfolding scan
  scan_from-All admit i [] least l a p q = subst_ok (λ l. P (l.min_key, l.min_cost)) q p
  scan_from-All admit i ((key, cost) ∷ rest) least l (b, bs) p q =
      let (hits, read, more) = >>=-eq-ok (TinyLfu.estimate key admit) _ q in
      elim (Bool-cases (ltb hits least.min_hits)) [
        | inl less ↦ scan_from-All admit (i + 1) rest _ l bs b (rw less at more)
        | inr not_less ↦ scan_from-All admit (i + 1) rest least l bs p (rw not_less at more)
      ]

  -- A least pair that is chosen for eviction is a pair of the sample.
  pub chosen-All :
      (admit : TinyLfu) (sample : List PolicyPair) (l : Least) (inc_hits : ℕ)
      → All P sample
      → inc_hits ≤ 256
      → ltb inc_hits l.min_hits ≡ false
      → scan admit 0 sample no_least ≡ ok l
      → P (l.min_key, l.min_cost)
  unfolding scan
  chosen-All admit [] l inc_hits a small chosen q =
      let e : 2 ^ 63 - 1 ≡ l.min_hits = subst_ok (λ l. 2 ^ 63 - 1 ≡ l.min_hits) q refl in
      absurd (ground (arith, chosen, e))
  chosen-All admit ((key, cost) ∷ rest) l inc_hits (b, bs) small chosen q =
      let (hits, read, more) = >>=-eq-ok (TinyLfu.estimate key admit) _ q in
      let le = estimate-le key admit hits read in
      let less : ltb hits (2 ^ 63 - 1) ≡ true = lt→ltb hits (2 ^ 63 - 1) (omega (arith, le)) in
      scan_from-All admit 1 rest _ l bs b (rw less at more)

  pub drop_least-kept :
      (i : ℕ) (sample sample' : List PolicyPair)
      → All P sample
      → drop_least i sample ≡ ok sample'
      → All P sample'
  drop_least-kept i [] sample' a q = absurd (ground (arith, sym (dropped_none i) ∙ q))
  drop_least-kept i (e ∷ rest) sample' a q =
      let n = length (e ∷ rest) - 1 in
      let last = get_elem?-eq-get_or (e ∷ rest) n e (omega arith) in
      elim (Option-cases (get_elem? (e ∷ rest) i)) [
        | inl out ↦ absurd (ground (arith, sym (dropped_out i (e ∷ rest) _ last out) ∙ q))
        | inr (x, there) ↦
            subst_ok (All P) (sym (dropped i (e ∷ rest) _ x last there) ∙ q)
              (All-set P (e ∷ rest) i _ a (All-get_or P (e ∷ rest) n e a a.0))
      ]
