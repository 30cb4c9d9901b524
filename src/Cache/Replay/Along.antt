-- ===== src/Cache/Replay/Along.antt =====
-- Histories of calls for integer keys on one cache of src/cache.rs, against the map without bounds.
use memory_cache_rust.Prelude.{
  All, ℕ, ◌≡◌, inl, inr, refl, sym, ◌∙◌, ap, Bool, true, false, List, [], ◌∷◌, Option, none, some,
  ok, >>=-ok, >>=-eq-ok, subst_ok, is_some, nat_eq, Bool-cases, if◌then◌else◌, arith,
}
use mathlib.Core.Path.{subst}
use memory_cache_rust.Prelude.Int.{ℤ}
use memory_cache_rust.Prelude.HashMap.{HashMap, get}
use memory_cache_rust.Bloom.{Floats}
use memory_cache_rust.Cache.{Cache, Config, with_hasher, set_until}
use memory_cache_rust.Cache.Coherent.Agree.{stored}
use memory_cache_rust.Cache.Expiry.{expiry}
use memory_cache_rust.Cache.History.Timed.{perform-until}
use memory_cache_rust.Cache.History.{
  Call, get_call, set_call, del_call, clean_call, perform, perform_all,
}
use memory_cache_rust.Cache.History.Answers.{
  null_or_Stocked, del-null, clean_up-null, clean_up-kept, clash, perform-Healthy,
}
use memory_cache_rust.Cache.History.Sound.{IsHealthy, IsHealthy-IsReady, with_hasher-Healthy}
use memory_cache_rust.Cache.Reads.{get-shown_by, shown_by}
use memory_cache_rust.Cache.Replay.Exact.{
  IsExact, known-IsExact, new-IsExact, del-IsExact, has-stored,
}
use memory_cache_rust.Store.Reads.{shown}
use memory_cache_rust.Ring.{refilled}
use memory_cache_rust.Cache
use memory_cache_rust.Metrics
use memory_cache_rust.Metrics.{Metrics}
use memory_cache_rust.TinyLfu
use memory_cache_rust.Cache.Replay.{written, IsInteger, replay, replay_all}
use memory_cache_rust.Cache.Writes.{store_of, del_lem}
use memory_cache_rust.Item.{Node}
use memory_cache_rust.Policy
use memory_cache_rust.Policy.{DefaultPolicy}
use memory_cache_rust.Policy.Samples.{IsOrder}
use memory_cache_rust.SampledLfu
use memory_cache_rust.SampledLfu.{PolicyPair, SampledLfu}
use memory_cache_rust.Store.{Store}
use memory_cache_rust.Store.Refine.{matches}
use memory_cache_rust.Store.View.{view}

module _ {V : Type 0} (order : HashMap ℕ ℤ → List PolicyPair) (visit : IsOrder order)
    (items : HashMap ℕ ℕ → List (ℕ × ℕ)) (none_due : items [] ≡ []) (fuel : ℕ) where
  pub set-IsExact :
      (key : ℕ) (value : V) (cost : ℤ) (ttl : ℕ) (m : ℕ → Option (Node V)) (c c' : Cache V)
      → IsHealthy c
      → IsExact m c.policy c.store
      → (r : Bool × Cache V) × (set_until order fuel key 0 value cost ttl c ≡ ok r)
        × (ok r.1 ≡ ok c')
      → IsExact (written key 0 value cost ttl m) c'.policy c'.store
  set-IsExact key value cost ttl m c c' h x (r, run, same) =
      subst_ok (λ d. IsExact (written key 0 value cost ttl m) d.policy d.store) same
        (elim (Bool-cases (matches 0 (view (store_of c) key))) [
          | inl old ↦ known-IsExact order visit fuel key value cost ttl m c r.1 r.0 h x run old
          | inr new ↦ new-IsExact order visit fuel key value cost ttl m c r.1 r.0 h x run new
        ])

  pub perform-IsExact :
      (call : Call V) (m : ℕ → Option (Node V)) (c c' : Cache V)
      → IsInteger call
      → IsHealthy c
      → IsExact m c.policy c.store
      → perform order items fuel call c ≡ ok c'
      → IsExact (replay call m) c'.policy c'.store
  unfolding perform
  perform-IsExact (get_call elapsed key conflict) m c c' plain h x e =
      subst_ok (λ d. IsExact m d.policy d.store)
        (sym (>>=-ok (get-shown_by elapsed key conflict c (IsHealthy-IsReady c h)) _) ∙ e) x
  perform-IsExact (set_call clock key conflict value cost ttl) m c c' plain h x e = rw plain (
      set-IsExact key value cost (expiry clock ttl) m c c' h x
        (perform-until order items fuel clock key 0 value cost ttl c c' (rw plain at e)))
  perform-IsExact (del_call key conflict) m c c' plain h x e = elim (null_or_Stocked c h) [
    | inl null ↦ absurd (clash (del-null key conflict c null) (e))
    | inr (s, there, w) ↦
        let (s', run, w', ch) = del_lem key conflict c s there w in
        subst_ok (λ d. IsExact (replay (del_call key conflict) m) d.policy d.store) (sym run ∙ e)
          (del-IsExact key conflict m c.policy s s' plain (subst (IsExact m c.policy) there x) ch)
  ]
  perform-IsExact (clean_call now) m c c' plain h x e = elim (null_or_Stocked c h) [
    | inl null ↦ absurd (clash (clean_up-null items now c null) (e))
    | inr (s, there, w) ↦
        subst_ok (λ d. IsExact m d.policy d.store)
          (sym (clean_up-kept items none_due now c s there) ∙ e)
          (subst (IsExact m c.policy) there x)
  ]

  perform_all-IsExact :
      (calls : List (Call V)) (m : ℕ → Option (Node V)) (c c' : Cache V)
      → All IsInteger calls
      → IsHealthy c
      → IsExact m c.policy c.store
      → perform_all order items fuel calls c ≡ ok c'
      → IsHealthy c' × IsExact (replay_all calls m) c'.policy c'.store
  unfolding perform_all
  perform_all-IsExact [] m c c' plain h x e =
      subst_ok (λ d. IsHealthy d × IsExact m d.policy d.store) e (h, x)
  perform_all-IsExact (call ∷ calls) m c c' plain h x e =
      let (c1, run, rest) = >>=-eq-ok (perform order items fuel call c) _ e in
      let (h1, built) = perform-Healthy order items none_due fuel call c c1 h run in
      perform_all-IsExact calls (replay call m) c1 c' plain.1 h1
        (perform-IsExact call m c c1 plain.0 h x run) rest

shown_by-stored :
    {V : Type 0} (elapsed key : ℕ) (o : Option (Store V))
    → shown_by elapsed key 0 o ≡ shown elapsed 0 (stored key o)
shown_by-stored elapsed key none = refl
shown_by-stored elapsed key (some s) = refl

pub shown_if :
    {V : Type 0} (elapsed : ℕ) (b : Bool) (o : Option (Node V))
    → shown elapsed 0 (if b then o else none) ≡ (if b then shown elapsed 0 o else none)
shown_if elapsed true o = refl
shown_if elapsed false o = refl

-- A `get` reads the map at a key of the policy.
pub get-IsExact :
    {V : Type 0} (elapsed key : ℕ) (m : ℕ → Option (Node V)) (c : Cache V)
    → IsHealthy c
    → IsExact m c.policy c.store
    → Cache.get elapsed key 0 c
      ≡ ok (
        if Policy.has key c.policy then shown elapsed 0 (m key) else none,
        record c { get_buf = refilled c.get_buf },
      )
unfolding Policy.has
get-IsExact elapsed key m c h x =
    get-shown_by elapsed key 0 c (IsHealthy-IsReady c h)
    ∙ ap (λ v. ok (v, record c { get_buf = refilled c.get_buf }))
        (shown_by-stored elapsed key c.store ∙ rw (x.held key) (shown_if elapsed _ (m key)))

pub no_costs :
    {V : Type 0} (fl : Floats) (source : ℕ) (config : Config) (c : Cache V)
    → with_hasher fl source config ≡ ok c
    → c.policy.evict.key_costs ≡ []
unfolding with_hasher Policy.new SampledLfu.new
no_costs fl source config c e =
    let shared : Option Metrics =
      if config.metrics then some (Metrics.new Metrics.do_not_use) else none in
    let (p, built, same) =
      >>=-eq-ok (Policy.new fl source config.numb_counters config.max_cost shared) _ e in
    let (admit, sized, same') = >>=-eq-ok (TinyLfu.new fl source config.numb_counters) _ built in
    subst_ok (λ d. d.policy.evict.key_costs ≡ []) same
      (subst_ok (λ q. q.evict.key_costs ≡ []) same' refl)

pub empty-IsExact :
    {V : Type 0} (p : DefaultPolicy) (o : Option (Store V))
    → p.evict.key_costs ≡ []
    → o ≡ none
    → IsExact (λ j. none) p o
unfolding get
empty-IsExact p o e f = record {
  held = λ j. rw (f, e) refl;
  known = λ j there. absurd (ground (arith, (rw e at there)));
}

module _ {V : Type 0} (order : HashMap ℕ ℤ → List PolicyPair) (visit : IsOrder order)
    (items : HashMap ℕ ℕ → List (ℕ × ℕ)) (none_due : items [] ≡ []) (fuel : ℕ) (fl : Floats)
    (source : ℕ) (config : Config) (calls : List (Call V)) (c c' : Cache V)
    (plain : All IsInteger calls) (made : with_hasher fl source config ≡ ok c)
    (run : perform_all order items fuel calls c ≡ ok c') where
  pub history-both : IsHealthy c' × IsExact (replay_all calls (λ j. none)) c'.policy c'.store
  history-both =
      let (h, null) = with_hasher-Healthy fl source config c made in
      perform_all-IsExact order visit items none_due fuel calls (λ j. none) c c' plain h
        (empty-IsExact c.policy c.store (no_costs fl source config c made) null) run

  -- After any history of the calls `get`, `set_with_ttl`, `del` and `clean_up` of integer keys,
  -- whose conflict hashes are 0, on a new cache that has returned, the cache is the unbounded map
  -- of the history at the keys of the policy: the store holds there the node that the map has,
  -- which is that of the key's last insertion, with its expiration, if no deletion has followed,
  -- and nothing elsewhere; it has a node for a key exactly if the policy has the key; and a `get`
  -- returns what it shows of the map's node, or nothing for a key that the policy does not have.
  -- This is where the iterations over the map of the costs visit its entries and no others, and
  -- where an empty map has nothing to iterate over.
  pub history-replay :
      (elapsed key : ℕ)
      → (stored key c'.store
          ≡ (if Policy.has key c'.policy then replay_all calls (λ j. none) key else none))
        × (is_some (stored key c'.store) ≡ Policy.has key c'.policy)
        × (Cache.get elapsed key 0 c'
            ≡ ok (
              if Policy.has key c'.policy
                  then shown elapsed 0 (replay_all calls (λ j. none) key)
                  else none,
              record c' { get_buf = refilled c'.get_buf },
            ))
  unfolding Policy.has
  history-replay elapsed key =
      let (h, x) = history-both in
      (
        x.held key,
        has-stored (replay_all calls (λ j. none)) c'.policy c'.store x key,
        get-IsExact elapsed key (replay_all calls (λ j. none)) c' h x,
      )
