-- ===== src/Cache/Total/Whole.antt =====
-- Every history on a new cache of src/cache.rs whose keys all cost the same, from the constructor on.
use mathlib.Core.Path.{subst}
use memory_cache_rust.Prelude.{
  All, ℕ, ◌+◌, ◌^◌, ◌≤◌, ◌<◌, ◌≡◌, ◌⊎◌, inl, inr, refl, sym, ◌∙◌, ap, true, false, List, [], Option,
  none, some, ok, panic, >>=-ok, is_some, nat_eq, if◌then◌else◌, arith,
}
use memory_cache_rust.Prelude.Int.{ℤ, pos, pos_part, neg_part, ◌≤ℤ◌}
use memory_cache_rust.Prelude.HashMap.{HashMap}
use memory_cache_rust.Bloom
use memory_cache_rust.Bloom.{Floats, entries_and_locs}
use memory_cache_rust.Bloom.Insert.{with_size-IsValid}
use memory_cache_rust.Cache.{Cache, Config, with_hasher}
use memory_cache_rust.Cache.Coherent.Charged.{IsFixed, new-IsPriced}
use memory_cache_rust.Cache.History.{Call, perform_all}
use memory_cache_rust.Cache.History.Sound.{IsHealthy, counted, with_hasher-Healthy}
use memory_cache_rust.Cache.Total.Along.{perform_all-Decided}
use memory_cache_rust.Cache.Total.Steady.{IsSteady}
use memory_cache_rust.Cache.Total.{well_placed}
use memory_cache_rust.Metrics
use memory_cache_rust.Metrics.{Metrics}
use memory_cache_rust.Policy
use memory_cache_rust.Policy.{DefaultPolicy}
use memory_cache_rust.Policy.Samples.{IsOrder}
use memory_cache_rust.Ring
use memory_cache_rust.SampledLfu
use memory_cache_rust.SampledLfu.{PolicyPair}
use memory_cache_rust.SampledLfu.Costs.{total}
use memory_cache_rust.Sketch.Count.{new-Covers}
use memory_cache_rust.TinyLfu
use memory_cache_rust.TinyLfu.{TinyLfu}
use memory_cache_rust.Sketch.Covers.{estimate-Covers}
use memory_cache_rust.Bloom.Member.{has-member}

module _ (fl : Floats) (n : ℕ) where
  -- The size and the locations of the door, as the floating point functions give them.
  abbrev pub door_size : ℕ × ℕ
  door_size = entries_and_locs fl (fl.of_i64 (pos n)) (fl.lit 1 2)

  -- The admission policy is built, with every estimate 0.
  new-quiet :
      (source : ℕ)
      → 2 ≤ n
      → n ≤ 2 ^ 62
      → door_size.0 ≤ 2 ^ 63
      → 0 < door_size.1
      → (t : TinyLfu) × (TinyLfu.new fl source (pos n) ≡ ok t)
        × ((k : ℕ) → TinyLfu.estimate k t ≡ ok 0)
  unfolding TinyLfu.new Bloom.new TinyLfu.estimate
  new-quiet source lo hi sized located =
      let (freq, made, c) = new-Covers source n lo hi in
      let (door, built, v, big, locs, empty) = with_size-IsValid door_size.0 door_size.1 sized in
      (
        record { freq = freq; door = door; incrs = pos 0; reset_at = pos n },
        >>=-ok made _ ∙ >>=-ok built _,
        λ k.
            let (e, run, low, high, few) = estimate-Covers (λ h. 0) 0 k freq c in
            let zero_hits : e ≡ 0 = omega (arith, high) in
            rw (run, has-member k door v, empty located k, zero_hits) refl,
      )

  module _ {V : Type 0} (source : ℕ) (config : Config) (lo : 2 ≤ n) (hi : n ≤ 2 ^ 62)
      (sized : door_size.0 ≤ 2 ^ 63) (located : 0 < door_size.1)
      (counters : config.numb_counters ≡ pos n) (each : ℤ) (nonneg : neg_part each ≡ 0)
      (positive : neg_part config.max_cost ≡ 0) (small : pos_part config.max_cost < 2 ^ 62) where
    with_hasher-IsRunning :
        (c : Cache V) × (with_hasher fl source config ≡ ok c)
        × IsSteady each config.max_cost nonneg c.policy
    unfolding with_hasher Policy.new SampledLfu.new Ring.new
    with_hasher-IsRunning =
        let (t, made, v) = new-quiet source lo hi sized located in
        let made' : TinyLfu.new fl source config.numb_counters ≡ ok t = rw counters made in
        let shared : Option Metrics =
          if config.metrics then some (Metrics.new Metrics.do_not_use) else none in
        let p : DefaultPolicy = record {
          admit = t;
          evict = SampledLfu.new config.max_cost shared;
          metrics = shared;
          number_counters = config.numb_counters;
          max_cost = config.max_cost;
        } in
        (
          record {
            store = none;
            policy = p;
            get_buf = Ring.new config.buffer_items;
            metrics = shared;
          },
          rw made' refl,
          record {
            priced = new-IsPriced (λ key. each) config.max_cost shared positive small;
            quiet = v;
            noted = counted config.metrics;
          },
        )

    module _ (order : HashMap ℕ ℤ → List PolicyPair) (visit : IsOrder order)
        (items : HashMap ℕ ℕ → List (ℕ × ℕ)) (none_due : items [] ≡ []) (fuel : ℕ)
        (calls : List (Call V)) (fixed : All (IsFixed (λ key. each)) calls) where
      -- A well placed history returns, from a cache that is built.
      pub history-running :
          well_placed false calls ≡ true
          → (c : Cache V) × (with_hasher fl source config ≡ ok c)
            × ((c' : Cache V) × (perform_all order items (fuel + 3) calls c ≡ ok c')
                × IsHealthy c'
                × IsSteady each config.max_cost nonneg c'.policy)
      history-running well =
          let (c, made, k) = with_hasher-IsRunning in
          let (h, null) = with_hasher-Healthy fl source config c made in
          (
            c,
            made,
            elim (perform_all-Decided order visit items none_due fuel each config.max_cost nonneg
                calls c false (ap is_some null) fixed (h, k)) [
                  | inl (b, (c', run, (h', k'))) ↦ (c', run, h', k')
                  | inr (bad, run) ↦ absurd (ground (arith, sym well ∙ bad))
                ],
          )

      -- Where all insertions name one cost, which is not negative, a new cache is built, and a
      -- history of the calls `get`, `set_with_ttl`, `del` and `clean_up` on it returns, with costs
      -- within the capacity, if no deletion and no clean-up comes before the first insertion and
      -- no insertion has a time to live above 0 and below a millisecond at which the clock fails
      -- or the sum with its answer is no duration, and else panics. Fuel for three rounds of the
      -- evictions is enough, with metrics or without. This is for between 2 and 2^62 counters, a
      -- door of at most 2^63 entries with a location, a capacity that is not negative and below
      -- 2^62, iterations over the map of the costs that visit its entries, some if there are any,
      -- and no others, and an empty map that has nothing to iterate over.
      pub history-decided :
          (c : Cache V) × (with_hasher fl source config ≡ ok c)
          × (((well_placed false calls ≡ true)
                × ((c' : Cache V) × (perform_all order items (fuel + 3) calls c ≡ ok c')
                    × (total c'.policy.evict.key_costs ≤ℤ config.max_cost)))
              ⊎ ((well_placed false calls ≡ false)
                  × (perform_all order items (fuel + 3) calls c ≡ panic)))
      history-decided =
          let (c, made, k) = with_hasher-IsRunning in
          let (h, null) = with_hasher-Healthy fl source config c made in
          (
            c,
            made,
            elim (perform_all-Decided order visit items none_due fuel each config.max_cost nonneg
                calls c false (ap is_some null) fixed (h, k)) [
                  | inl (b, (c', run, (h', k'))) ↦
                      let (budget, (prices, capacity)) = k'.priced in
                      inl (
                        b,
                        (
                          c',
                          run,
                          subst (λ z. total c'.policy.evict.key_costs ≤ℤ z) capacity budget.bounded,
                        ),
                      )
                  | inr bad ↦ inr bad
                ],
          )
