-- ===== src/Policy/Scan.antt =====
-- The loop of `DefaultPolicy::add` in src/policy.rs that looks for the least frequent key.
use memory_cache_rust.Prelude.{
  ℕ, suc, ◌+◌, ◌-◌, ◌^◌, ◌≤◌, ◌<◌, ◌≡◌, refl, List, [], ◌∷◌, ◌++◌, some, ltb, lt→ltb, leb, ok,
  arith, All, All-append, All-set, All-get_or, length, length-set, set, get_elem?, get_or,
  get_elem?-eq-get_or, Bool-cases, inl, inr,
}
use memory_cache_rust.Prelude.Int.{ℤ}
use memory_cache_rust.Prelude.HashMap.{HashMap}
use memory_cache_rust.Policy.{Least, no_least, scan, drop_least}
use memory_cache_rust.SampledLfu.{SampledLfu, PolicyPair, fill_from, fill_sample}
use memory_cache_rust.TinyLfu
use memory_cache_rust.TinyLfu.{TinyLfu}

-- The hits of a key, if its estimate is `h`.
module _ {ℓ} (P : PolicyPair → Type ℓ) (admit : TinyLfu) (bound : ℕ) where
  -- Each pair of the sample satisfies `P` and has an estimate of at most `bound`.
  abbrev pub Rated : PolicyPair → Type ℓ
  Rated e = P e × ((h : ℕ) × (TinyLfu.estimate e.0 admit ≡ ok h) × (h ≤ bound))

  -- The result names a pair of the sample, with hits of at most `bound`.
  pub record Found (len : ℕ) (least : Least) : Type ℓ where
    pub holds : P (least.min_key, least.min_cost)
    pub hits : least.min_hits ≤ bound
    pub id : least.min_id < len

  scan_from :
      (i : ℕ) (sample : List PolicyPair) (least : Least) (len : ℕ)
      → All Rated sample
      → i + length sample ≡ len
      → Found len least
      → (l : Least) × (scan admit i sample least ≡ ok l) × Found len l
  unfolding scan
  scan_from i [] least len r e f = (least, refl, f)
  scan_from i ((key, cost) ∷ rest) least len ((p, (h, est, small)), rs) e f =
      let here : Least = record { min_key = key; min_hits = h; min_id = i; min_cost = cost } in
      let g : Found len here = record { holds = p; hits = small; id = omega arith } in
      elim (Bool-cases (ltb h least.min_hits)) [
        | inl less ↦
            let (l, run, w) = scan_from (i + 1) rest here len rs (omega arith) g in
            (l, rw est (rw less run), w)
        | inr more ↦
            let (l, run, w) = scan_from (i + 1) rest least len rs (omega arith) f in
            (l, rw est (rw more run), w)
      ]

  -- A sample that is not empty has a least pair, with hits of at most `bound`.
  pub scan-Found :
      (sample : List PolicyPair)
      → All Rated sample
      → 0 < length sample
      → bound < 2 ^ 63 - 1
      → (l : Least) × (scan admit 0 sample no_least ≡ ok l) × Found (length sample) l
  unfolding scan
  scan-Found [] r q small = absurd (omega arith)
  scan-Found ((key, cost) ∷ rest) ((p, (h, est, le)), rs) q small =
      let here : Least = record { min_key = key; min_hits = h; min_id = 0; min_cost = cost } in
      let (l, run, w) =
        scan_from 1 rest here (suc (length rest)) rs (omega arith)
          (record { holds = p; hits = le; id = omega arith }) in
      (l, rw est (rw (lt→ltb h (2 ^ 63 - 1) (omega arith)) run), w)

pub dropped :
    (i : ℕ) (sample : List PolicyPair) (last e : PolicyPair)
    → get_elem? sample (length sample - 1) ≡ some last
    → get_elem? sample i ≡ some e
    → drop_least i sample ≡ ok (set sample i last)
unfolding drop_least
dropped i sample last e p q = rw (p, drop_least) (rw q refl)

module _ {ℓ} (P : PolicyPair → Type ℓ) where
  -- Dropping the least pair does not panic, keeps the length, and keeps what holds of all pairs.
  pub drop_least-All :
      (i : ℕ) (sample : List PolicyPair)
      → i < length sample
      → All P sample
      → (sample' : List PolicyPair) × (drop_least i sample ≡ ok sample')
        × (length sample' ≡ length sample)
        × All P sample'
  drop_least-All i [] h a = absurd (omega arith)
  drop_least-All i (e ∷ rest) h a =
      let sample = e ∷ rest in
      let n = length sample - 1 in
      let last = get_or sample n e in
      (
        set sample i last,
        dropped i (e ∷ rest) last (get_or (e ∷ rest) i e)
            (get_elem?-eq-get_or (e ∷ rest) n e (omega arith))
            (get_elem?-eq-get_or (e ∷ rest) i e h),
        length-set sample i last,
        All-set P sample i last a (All-get_or P sample n e a a.0),
      )

  fill_from-All : (es input : List PolicyPair) → All P es → All P input → All P (fill_from es input)
  unfolding fill_from
  fill_from-All [] input a b = b
  fill_from-All (e ∷ es) input a b =
      let b' = All-append P input (e ∷ []) b (a.0, tt) in
      elim (Bool-cases (leb 5 (length (input ++ e ∷ [])))) [
        | inl full ↦ rw full b'
        | inr more ↦ rw more (fill_from-All es (input ++ e ∷ []) a.1 b')
      ]

  -- A sample holds what its old pairs and the iterated entries hold.
  pub fill_sample-All :
      (order : HashMap ℕ ℤ → List PolicyPair) (s : SampledLfu) (input : List PolicyPair)
      → All P (order s.key_costs)
      → All P input
      → All P (fill_sample order s input)
  unfolding fill_sample
  fill_sample-All order s input a b = elim (Bool-cases (leb 5 (length input))) [
    | inl full ↦ rw full b
    | inr more ↦ rw more (fill_from-All (order s.key_costs) input a b)
  ]
