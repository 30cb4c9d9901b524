-- ===== src/Policy/Enough.antt =====
-- The fuel of the eviction loop of `DefaultPolicy::add` in src/policy.rs.
use memory_cache_rust.Prelude.{
  ℕ, ◌+◌, ◌<◌, ◌≡◌, refl, Bool, true, List, none, some, nat_eq, ok, ◌^◌, arith, All, inl, inr,
}
use memory_cache_rust.Prelude.Int.{ℤ, ◌≤ℤ◌, neg_part}
use memory_cache_rust.Prelude.HashMap.{HashMap, get}
use memory_cache_rust.Item.{Item}
use memory_cache_rust.Metrics.{Metrics}
use memory_cache_rust.Policy.Capacity.{Settled, add-Settled}
use memory_cache_rust.Policy.Rounds.{IsRated, add_run}
use memory_cache_rust.TinyLfu
use memory_cache_rust.Policy.{DefaultPolicy, add}
use memory_cache_rust.SampledLfu.Budget.{Budget}
use memory_cache_rust.SampledLfu.{PolicyPair}
use memory_cache_rust.TinyLfu.Reach.{estimate-IsValid, IsValid}
use memory_cache_rust.Policy.Samples.{IsOrder}

module _ {V : Type 0} (order : HashMap ℕ ℤ → List PolicyPair) (visit : IsOrder order) (key : ℕ)
    (cost : ℤ) (nonneg : neg_part cost ≡ 0) where
  -- Where every key of the policy costs at least as much as a new key, whose cost is not negative,
  -- fuel for three rounds is enough for the addition to return, whatever the order in which a
  -- map's entries are visited: the costs then fit the capacity, and the key is in the policy with
  -- its cost exactly if the addition reports so. This is from costs within a capacity below 2^62,
  -- a well-formed frequency state with counters below 2^62, and with metrics.
  pub add_returns :
      (b fuel : ℕ) (p : DefaultPolicy) (m : Metrics)
      → b < 2 ^ 62
      → Budget p.evict
      → IsValid b p.admit
      → p.metrics ≡ some m
      → get key p.evict.key_costs ≡ none
      → All (λ e. cost ≤ℤ e.1) p.evict.key_costs
      → (r : DefaultPolicy × List (Item V) × Bool) × (add order (fuel + 3) key cost p ≡ ok r)
        × Settled key cost r
  add_returns b fuel p m small w valid metered absent dear =
      let rates : IsRated (b + 1) p =
        λ k. let (hits, run, le, le') = estimate-IsValid b k p.admit valid in (hits, run, le) in
      let (r, run, added) =
        add_run order visit key cost nonneg (b + 1) (omega (arith, small)) fuel p w rates
          (inl (m, metered)) absent dear in
      (r, run, add-Settled order key cost nonneg (fuel + 3) p r w absent run)

  -- Where every estimate is 0 and every key of the policy costs at least as much as a new key,
  -- whose cost is not negative and fits the capacity, the addition of the new key returns and
  -- reports that the key is added, with metrics or without, whatever the order in which a map's
  -- entries are visited; fuel for three rounds is enough, the costs then fit the capacity, and the
  -- key is in the policy with its cost. This is from costs within a capacity below 2^62.
  pub add_quiet :
      (fuel : ℕ) (p : DefaultPolicy)
      → Budget p.evict
      → ((k : ℕ) → TinyLfu.estimate k p.admit ≡ ok 0)
      → get key p.evict.key_costs ≡ none
      → cost ≤ℤ p.evict.max_cost
      → All (λ e. cost ≤ℤ e.1) p.evict.key_costs
      → (r : DefaultPolicy × List (Item V) × Bool) × (add order (fuel + 3) key cost p ≡ ok r)
        × (r.2 ≡ true)
        × Settled key cost r
  add_quiet fuel p w quiet absent le dear =
      let rates : IsRated 0 p = λ k. (0, quiet k, omega arith) in
      let (r, run, added) =
        add_run order visit key cost nonneg 0 (omega arith) fuel p w rates (inr refl) absent dear in
      (r, run, added refl le, add-Settled order key cost nonneg (fuel + 3) p r w absent run)
