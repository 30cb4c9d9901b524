-- ===== src/Cache/Replay/Whole.antt =====
-- Histories on a new cache of src/cache.rs that fit its capacity together: what they answer, and which return.
use memory_cache_rust.Prelude.{
  All, ℕ, ◌^◌, ◌≤◌, ◌<◌, ◌≡◌, ◌⊎◌, inl, inr, ap, true, false, List, [], Option, none, some, ok,
  panic, >>=-eq-ok, subst_ok, is_some, nat_eq, if◌then◌else◌,
}
use memory_cache_rust.Prelude.Int.{ℤ, pos_part, neg_part}
use memory_cache_rust.Prelude.HashMap.{HashMap}
use memory_cache_rust.Bloom.{Floats}
use memory_cache_rust.Cache
use memory_cache_rust.Cache.{Cache, Config, with_hasher, set_until}
use memory_cache_rust.Cache.Coherent.Agree.{stored}
use memory_cache_rust.Cache.Coherent.Charged.{IsFixed}
use memory_cache_rust.Cache.History.{Call, perform_all}
use memory_cache_rust.Cache.History.Sound.{counted, with_hasher-Healthy}
use memory_cache_rust.Cache.Replay.Lossless.{starts-IsWhole, history-lossless}
use memory_cache_rust.Cache.Replay.Roomy.{spent}
use memory_cache_rust.Cache.Replay.{IsInteger, replay_all}
use memory_cache_rust.Cache.Total.{well_placed}
use memory_cache_rust.Metrics
use memory_cache_rust.Metrics.{Metrics, IsUnused}
use memory_cache_rust.Policy
use memory_cache_rust.Policy.{DefaultPolicy}
use memory_cache_rust.Policy.Samples.{IsOrder}
use memory_cache_rust.Ring.{refilled}
use memory_cache_rust.SampledLfu
use memory_cache_rust.SampledLfu.{PolicyPair}
use memory_cache_rust.Store.Reads.{shown}
use memory_cache_rust.TinyLfu
use memory_cache_rust.Cache.Replay.Decided.{perform_all-Decided}

uncounted :
    {V : Type 0} (fl : Floats) (source : ℕ) (config : Config) (c : Cache V)
    → with_hasher fl source config ≡ ok c
    → IsUnused c.policy.evict.metrics
unfolding with_hasher Policy.new SampledLfu.new
uncounted fl source config c e =
    let shared : Option Metrics =
      if config.metrics then some (Metrics.new Metrics.do_not_use) else none in
    let (p, built, same) =
      >>=-eq-ok (Policy.new fl source config.numb_counters config.max_cost shared) _ e in
    let (admit, sized, same') = >>=-eq-ok (TinyLfu.new fl source config.numb_counters) _ built in
    subst_ok (λ d. IsUnused d.policy.evict.metrics) same
      (subst_ok (λ q. IsUnused q.evict.metrics) same' (counted config.metrics))

module _ {V : Type 0} (order : HashMap ℕ ℤ → List PolicyPair) (visit : IsOrder order)
    (items : HashMap ℕ ℕ → List (ℕ × ℕ)) (none_due : items [] ≡ []) (fuel : ℕ) (price : ℕ → ℤ)
    (nonneg : (key : ℕ) → neg_part (price key) ≡ 0) (fl : Floats) (source : ℕ) (config : Config)
    (positive : neg_part config.max_cost ≡ 0) (small : pos_part config.max_cost < 2 ^ 62)
    (calls : List (Call V)) (c : Cache V) (plain : All IsInteger calls)
    (fixed : All (IsFixed price) calls) (enough : spent calls ≤ pos_part config.max_cost)
    (made : with_hasher fl source config ≡ ok c) where
  -- Where the insertions of a history name costs that fit the capacity together, nothing is lost:
  -- the history of the calls `get`, `set_with_ttl`, `del` and `clean_up` of integer keys, on a
  -- cache that has been built new, returns if no deletion and no clean-up comes before the first
  -- insertion and no insertion has a time to live above 0 and below a millisecond at which the
  -- clock fails or the sum with its answer is no duration, and else panics, whatever the fuel,
  -- with metrics or without. Where it returns, the store is the unbounded map of the history, and
  -- a `get` returns what it shows of the map's node. This is where each key has one cost, which is
  -- not negative, the capacity is not negative and below 2^62, the iterations over the map of the
  -- costs visit its entries and no others, and an empty map has nothing to iterate over.
  pub history-whole :
      (elapsed key : ℕ)
      → ((well_placed false calls ≡ true)
          × ((c' : Cache V) × (perform_all order items fuel calls c ≡ ok c')
              × (stored key c'.store ≡ replay_all calls (λ j. none) key)
              × (Cache.get elapsed key 0 c'
                  ≡ ok (
                    shown elapsed 0 (replay_all calls (λ j. none) key),
                    record c' { get_buf = refilled c'.get_buf },
                  ))))
        ⊎ ((well_placed false calls ≡ false) × (perform_all order items fuel calls c ≡ panic))
  history-whole elapsed key =
      let (h, null) = with_hasher-Healthy fl source config c made in
      let first =
        starts-IsWhole order visit items none_due fuel price nonneg fl source config positive small
          (spent calls) c enough made in
      elim (perform_all-Decided order visit items none_due fuel price nonneg config.max_cost
        positive calls (λ j. none) c false (ap is_some null) plain fixed first
        (uncounted fl source config c made)) [
          | inl (b, (c', run)) ↦
              let (held, read) =
                history-lossless order visit items none_due fuel price nonneg fl source config
                  positive small calls c c' plain fixed enough made run elapsed key in
              inl (b, (c', run, held, read))
          | inr bad ↦ inr bad
        ]
