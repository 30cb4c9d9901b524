-- ===== src/Policy/Diverge.antt =====
-- The eviction loop of `DefaultPolicy::add` in src/policy.rs on a full sample.
use memory_cache_rust.Prelude.{
  ℕ, zero, suc, ◌-◌, ◌≤◌, ◌<◌, ◌^◌, ◌≡◌, refl, ◌∙◌, Bool, true, List, [], ◌∷◌, ◌++◌, none,
  if◌then◌else◌, nat_eq, ok, timeout, arith, length, All,
}
use memory_cache_rust.Prelude.Int.{ℤ, pos, ltb_ℤ, ◌<ℤ◌, ◌≤ℤ◌, ◌+ℤ◌, neg_part, +ℤ_parts}
use memory_cache_rust.Prelude.HashMap.{HashMap, get, remove}
use memory_cache_rust.Item.{Item}
use memory_cache_rust.Policy.Loop.{
  fill_sample_full, evict_loop_step, without, room_left_lt, add-admit_new,
}
use memory_cache_rust.Policy.Scan.{Rated, scan-Found, drop_least-All}
use memory_cache_rust.Policy.{DefaultPolicy, victim, evict_loop, admit_new, add}
use memory_cache_rust.SampledLfu.Budget.{Budget, IsCost, del-Deleted}
use memory_cache_rust.SampledLfu.Costs.{total}
use memory_cache_rust.SampledLfu.{PolicyPair, fill_sample, room_left}
use memory_cache_rust.TinyLfu

module _ (doomed : ℕ → Bool) where
  -- The cost of the keys that are not in the sample.
  unfoldable pub kept : HashMap ℕ ℤ → ℤ
  kept [] = pos 0
  kept ((k, v) ∷ m) = if doomed k then kept m else kept m +ℤ v

  kept-le-total : (m : HashMap ℕ ℤ) → All IsCost m → kept m ≤ℤ total m
  unfolding kept total
  kept-le-total [] a = omega arith
  kept-le-total ((k, v) ∷ m) (p, ps) =
      ground (arith, kept-le-total m ps, +ℤ_parts (kept m) v, +ℤ_parts (total m) v)

  kept-remove : (k : ℕ) (m : HashMap ℕ ℤ) → doomed k ≡ true → kept (remove k m) ≡ kept m
  unfolding kept remove
  kept-remove k [] h = refl
  kept-remove k ((j, v) ∷ m) h = ground (arith, kept-remove k m h)

  abbrev pub IsDoomed : PolicyPair → Type 0
  IsDoomed e = doomed e.0 ≡ true

  module _ (cost : ℤ) (inc_hits : ℕ) where
    -- The sample is full, its keys are doomed and no more frequent than the new key, and the other
    -- keys alone leave too little room.
    pub record Hopeless (p : DefaultPolicy) (sample : List PolicyPair) : Type 0 where
      pub budget : Budget p.evict
      pub fits : cost ≤ℤ p.evict.max_cost
      pub over : p.evict.max_cost <ℤ kept p.evict.key_costs +ℤ cost
      pub full : 5 ≤ length sample
      pub rated : All (Rated IsDoomed p.admit inc_hits) sample

    over_total :
        (p : DefaultPolicy) (sample : List PolicyPair)
        → Hopeless p sample
        → p.evict.max_cost <ℤ total p.evict.key_costs +ℤ cost
    over_total p sample w = omega (
      arith,
      w.over,
      kept-le-total p.evict.key_costs w.budget.costs,
      +ℤ_parts (kept p.evict.key_costs) cost,
      +ℤ_parts (total p.evict.key_costs) cost,
    )

    Hopeless-room :
        (p : DefaultPolicy) (sample : List PolicyPair)
        → neg_part cost ≡ 0
        → Hopeless p sample
        → ltb_ℤ (room_left cost p.evict) (pos 0) ≡ true
    Hopeless-room p sample nonneg w =
        room_left_lt cost p.evict w.budget nonneg w.fits (over_total p sample w)

  module _ {V : Type 0} (order : HashMap ℕ ℤ → List PolicyPair) (key : ℕ) (cost : ℤ) (inc_hits : ℕ)
      (nonneg : neg_part cost ≡ 0) (few : inc_hits < 2 ^ 63 - 1) where
    -- A round of the loop leads from a hopeless state to another.
    pub Hopeless-step :
        (fuel : ℕ) (room : ℤ) (sample : List PolicyPair) (victims : List (Item V))
        (p : DefaultPolicy)
        → ltb_ℤ room (pos 0) ≡ true
        → Hopeless cost inc_hits p (fill_sample order p.evict sample)
        → record {
          room' : ℤ;
          sample' : List PolicyPair;
          victims' : List (Item V);
          p' : DefaultPolicy;
          same :
              evict_loop order (suc fuel) key cost inc_hits room sample victims p
              ≡ evict_loop order fuel key cost inc_hits room' sample' victims' p';
          lacking : ltb_ℤ room' (pos 0) ≡ true;
          hopeless : Hopeless cost inc_hits p' (fill_sample order p'.evict sample');
        }
    Hopeless-step fuel room sample victims p lacking w =
        let filled = fill_sample order p.evict sample in
        let (least, scanned, found) =
          scan-Found IsDoomed p.admit inc_hits filled w.rated (omega (arith, w.full)) few in
        let (sample', dropped, len, rated) =
          drop_least-All (Rated IsDoomed p.admit inc_hits) least.min_id filled found.id w.rated in
        let d = del-Deleted least.min_key p.evict w.budget in
        let p' = without least.min_key p in
        let full : 5 ≤ length sample' = omega (arith, w.full, len) in
        let e = fill_sample_full order p'.evict sample' full in
        record {
          room' = room_left cost p.evict;
          sample' = sample';
          victims' = victims ++ victim least ∷ [];
          p' = p';
          same =
              evict_loop_step order key cost inc_hits fuel room sample sample' least victims p
                lacking scanned (ground (arith, found.hits)) dropped;
          lacking = Hopeless-room cost inc_hits p filled nonneg w;
          hopeless = rw e (record {
            budget = d.budget;
            fits = rw d.max_eq w.fits;
            over =
                rw (d.max_eq, d.costs_eq, kept-remove least.min_key p.evict.key_costs found.holds)
                  w.over;
            full = full;
            rated = rated;
          });
        }

    pub evict_loop-Hopeless :
        (fuel : ℕ) (room : ℤ) (sample : List PolicyPair) (victims : List (Item V))
        (p : DefaultPolicy)
        → ltb_ℤ room (pos 0) ≡ true
        → Hopeless cost inc_hits p (fill_sample order p.evict sample)
        → evict_loop order fuel key cost inc_hits room sample victims p ≡ timeout
    evict_loop-Hopeless zero room sample victims p lacking w = unfold evict_loop in refl
    evict_loop-Hopeless (suc fuel) room sample victims p lacking w =
        let s = Hopeless-step fuel room sample victims p lacking w in
        s.same ∙ evict_loop-Hopeless fuel s.room' s.sample' s.victims' s.p' s.lacking s.hopeless

    -- From costs within a capacity below 2^62, where the cost of a new key is not negative and
    -- fits the capacity, but not beside the keys that the first sample leaves out, the sample is
    -- full, and none of its keys is more frequent than the new key, whose estimate is below 2^63 -
    -- 1, an addition of the new key never returns: it uses up any fuel.
    pub add-timeout :
        (fuel : ℕ) (p : DefaultPolicy)
        → get key p.evict.key_costs ≡ none
        → TinyLfu.estimate key p.admit ≡ ok inc_hits
        → Hopeless cost inc_hits p (fill_sample order p.evict [])
        → add {V = V} order fuel key cost p ≡ timeout
    unfolding admit_new
    add-timeout fuel p absent est w =
        let lacking = Hopeless-room cost inc_hits p (fill_sample order p.evict []) nonneg w in
        add-admit_new order fuel key cost p absent w.fits
        ∙ rw (lacking, admit_new)
            (rw est (evict_loop-Hopeless fuel (room_left cost p.evict) [] [] p lacking w))
