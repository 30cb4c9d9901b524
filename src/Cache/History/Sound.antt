-- ===== src/Cache/History/Sound.antt =====
-- What every history of calls keeps of a cache.
use mathlib.Core.Path.{subst}
use mathlib.Core.Option.{some-injective, none-ne-some}
use memory_cache_rust.Prelude.{
  ℕ, ◌≡◌, refl, sym, ◌∙◌, Bool, true, false, List, none, some, ok, >>=-eq-ok, subst_ok, Bool-cases,
  Option-cases, inl, inr, is_some, if◌then◌else◌,
}
use memory_cache_rust.Prelude.Int.{ℤ}
use memory_cache_rust.Prelude.HashMap.{HashMap}
use memory_cache_rust.Bloom.{Floats}
use memory_cache_rust.Cache.{Cache, Config, with_hasher, set_until, init_store}
use memory_cache_rust.Cache.Evict.{Stocked, new-Stocked}
use memory_cache_rust.Cache.Reads.{IsReady}
use memory_cache_rust.Cache.Writes.{store_of, set_until_known, set_until_new}
use memory_cache_rust.Cache.Writes.Asks.{known-asks, unknown-asks}
use memory_cache_rust.Metrics
use memory_cache_rust.Metrics.{IsUnused}
use memory_cache_rust.Policy
use memory_cache_rust.Policy.{DefaultPolicy}
use memory_cache_rust.Ring
use memory_cache_rust.Ring.{IsZeroed, refilled}
use memory_cache_rust.SampledLfu.{PolicyPair}
use memory_cache_rust.Store.{Store}
use memory_cache_rust.Store.Refine.{matches}
use memory_cache_rust.Store.View.{view}

pub counted : (b : Bool) → IsUnused (if b then some (Metrics.new Metrics.do_not_use) else none)
counted true = inr refl
counted false = inl refl

module _ {V : Type 0} where
  -- The store is null or has a value in every node, and the buffer and the metrics are as the code leaves them.
  pub record IsHealthy (c : Cache V) : Type 0 where
    pub stocked : (s : Store V) → c.store ≡ some s → Stocked s
    pub buffered : IsZeroed c.get_buf
    pub metered : IsUnused c.metrics

  pub IsHealthy-IsReady : (c : Cache V) → IsHealthy c → IsReady c
  IsHealthy-IsReady c h = record {
    stored = λ s e. (h.stocked s e).valid;
    buffered = h.buffered;
    metered = h.metered;
  }

  some_is : (s : Store V) → Stocked s → (s' : Store V) → some s ≡ some s' → Stocked s'
  some_is s w s' e = subst Stocked (some-injective _ _ e) w

  -- The cache with another store, and any policy.
  pub stored-Healthy :
      (c : Cache V) (s : Store V) (p : DefaultPolicy)
      → IsHealthy c
      → Stocked s
      → IsHealthy (record c { store = some s; policy = p })
  stored-Healthy c s p h w = record {
    stocked = some_is s w;
    buffered = h.buffered;
    metered = h.metered;
  }

  pub with_hasher-Healthy :
      (fl : Floats) (source : ℕ) (config : Config) (c : Cache V)
      → with_hasher fl source config ≡ ok c
      → IsHealthy c × (c.store ≡ none)
  unfolding with_hasher Ring.new
  with_hasher-Healthy fl source config c e =
      let (p, built, same) =
        >>=-eq-ok
          (Policy.new fl source config.numb_counters config.max_cost
            (if config.metrics then some (Metrics.new Metrics.do_not_use) else none))
          _ e in
      subst_ok (λ c. IsHealthy c × (c.store ≡ none)) same
        (
          record {
            stocked = λ s none_is. absurd (none-ne-some _ none_is);
            buffered = inl refl;
            metered = counted config.metrics;
          },
          refl,
        )

  -- The store that a call of `set_with_ttl` works on.
  pub store_of-Stocked : (c : Cache V) → IsHealthy c → Stocked (store_of c)
  unfolding init_store
  store_of-Stocked c h = elim (Option-cases c.store) [
    | inl e ↦ rw e new-Stocked
    | inr (s, e) ↦ rw e (h.stocked s e)
  ]

  module _ (order : HashMap ℕ ℤ → List PolicyPair) (fuel key conflict : ℕ) (value : V) (cost : ℤ)
      (ttl : ℕ) (c c' : Cache V) (b : Bool) (h : IsHealthy c)
      (e : set_until order fuel key conflict value cost ttl c ≡ ok (b, c')) where
    -- From its expiration on, a `set_with_ttl` that returns leaves the cache with a store.
    pub set_until-Healthy : IsHealthy c' × (is_some c'.store ≡ true)
    set_until-Healthy = elim (Bool-cases (matches conflict (view (store_of c) key))) [
      | inl known ↦
          let w = store_of-Stocked c h in
          let (p, asked) = known-asks order fuel key conflict value cost ttl c w (b, c') e known in
          let (s, run, w', ch) =
            set_until_known order fuel key conflict value cost ttl c p w known asked in
          returned s p w' run
      | inr unknown ↦
          let w = store_of-Stocked c h in
          let ((p, victims, added), asked) =
            unknown-asks order fuel key conflict value cost ttl c w (b, c') e unknown in
          let (s, run, w', same) =
            set_until_new order fuel key conflict value cost ttl c p victims added w h.metered
              unknown asked in
          returned s p w' run
    ]
      where
        returned :
            (s : Store V) (p : DefaultPolicy)
            → Stocked s
            → set_until order fuel key conflict value cost ttl c
              ≡ ok (true, record c { store = some s; policy = p })
            → IsHealthy c' × (is_some c'.store ≡ true)
        returned s p w run =
            subst_ok (λ r. IsHealthy r.1 × (is_some r.1.store ≡ true)) (sym run ∙ e)
              (stored-Healthy c s p h w, refl)
