-- ===== src/Cache/Total/Recent.antt =====
-- A `get` that follows a `set_with_ttl` of its key, after a history on a cache of src/cache.rs.
use memory_cache_rust.Prelude.{
  All, ℕ, ◌+◌, ◌^◌, ◌≤◌, ◌<◌, ◌≡◌, refl, ◌∙◌, ap, Bool, true, false, List, [], Option, none, some,
  ok, if◌then◌else◌, arith, nat_eq, nat_beq, nat_beq_iff,
}
use memory_cache_rust.Prelude.Int.{ℤ, pos, pos_part, neg_part, ◌≤ℤ◌}
use memory_cache_rust.Prelude.HashMap.{HashMap}
use memory_cache_rust.Bloom.{Floats}
use memory_cache_rust.Cache
use memory_cache_rust.Cache.{Cache, Config, with_hasher, set_with_ttl}
use memory_cache_rust.Cache.Expiry.{expiry, timely, set_with_ttl-timely}
use memory_cache_rust.Cache.Coherent.Charged.{IsFixed}
use memory_cache_rust.Cache.History.{Call, perform, perform_all}
use memory_cache_rust.Cache.Replay.{IsInteger, written, replay_all}
use memory_cache_rust.Cache.Replay.Along.{history-both, set-IsExact, get-IsExact}
use memory_cache_rust.Cache.Replay.Exact.{has-matches}
use memory_cache_rust.Cache.Total.Along.{set-returns}
use memory_cache_rust.Cache.Total.Whole.{door_size, history-running}
use memory_cache_rust.Cache.Total.{well_placed}
use memory_cache_rust.Item.{Node, as_millis}
use memory_cache_rust.Policy
use memory_cache_rust.Policy.Samples.{IsOrder}
use memory_cache_rust.Ring.{refilled}
use memory_cache_rust.SampledLfu.{PolicyPair}
use memory_cache_rust.Store
use memory_cache_rust.Store.{node_of}
use memory_cache_rust.Store.Reads.{shown}

shown-recent :
    {V : Type 0} (elapsed key : ℕ) (value : V) (cost : ℤ) (expiration : ℕ) (m : ℕ → Option (Node V))
    (b : Bool)
    → as_millis expiration ≤ as_millis elapsed
    → b ≡ true
    → (if b then shown elapsed 0 (written key 0 value cost expiration m key) else none) ≡ some value
unfolding Store.hidden
shown-recent elapsed key value cost expiration m b late there =
    let same : nat_beq key key ≡ true = (nat_beq_iff key key).1 refl in
    rw (there, same) (ground (arith, late))

module _ {V : Type 0} (fl : Floats) (n source : ℕ) (config : Config) (lo : 2 ≤ n) (hi : n ≤ 2 ^ 62)
    (sized : (door_size fl n).0 ≤ 2 ^ 63) (located : 0 < (door_size fl n).1)
    (counters : config.numb_counters ≡ pos n) (each : ℤ) (nonneg : neg_part each ≡ 0)
    (positive : neg_part config.max_cost ≡ 0) (small : pos_part config.max_cost < 2 ^ 62)
    (order : HashMap ℕ ℤ → List PolicyPair) (visit : IsOrder order)
    (items : HashMap ℕ ℕ → List (ℕ × ℕ)) (none_due : items [] ≡ []) (fuel : ℕ)
    (calls : List (Call V)) (fixed : All (IsFixed (λ key. each)) calls)
    (plain : All IsInteger calls) (well : well_placed false calls ≡ true)
    (fits : each ≤ℤ config.max_cost) where
  -- After any history of integer keys in which no deletion and no clean-up comes before the first
  -- insertion and no insertion has a time to live above 0 and below a millisecond at which the
  -- clock fails or the sum with its answer is no duration, a `set_with_ttl` of an integer key, of
  -- which the same is true, returns, and a `get` of the key that follows it returns the new value,
  -- where the time between the two readings of the clock in `get` is not below the new item's
  -- expiration in whole milliseconds: its time to live, or the sum with the clock's answer where
  -- that is above 0 and below a millisecond. Whatever the cache holds, the new key is admitted.
  -- This is where all insertions name one cost, which is not negative and fits the capacity, and
  -- under the conditions on the configuration, the door and the iterations of the theorem on
  -- histories that return.
  pub history-recent :
      (clock : Option ℕ) (key : ℕ) (value : V) (ttl elapsed : ℕ)
      → timely clock ttl ≡ true
      → as_millis (expiry clock ttl) ≤ as_millis elapsed
      → (c : Cache V) × (with_hasher fl source config ≡ ok c)
        × ((c' : Cache V) × (perform_all order items (fuel + 3) calls c ≡ ok c')
            × ((c'' : Cache V) × (set_with_ttl order (fuel + 3) clock key 0 value each ttl c'
                  ≡ ok (true, c''))
                × (Cache.get elapsed key 0 c''
                    ≡ ok (some value, record c'' { get_buf = refilled c''.get_buf }))))
  unfolding Policy.has perform
  history-recent clock key value ttl elapsed ready late =
      let (c, made, (c', run, h, k)) =
        history-running fl n source config lo hi sized located counters each nonneg positive small
          order visit items none_due fuel calls fixed well in
      let (h', x) =
        history-both order visit items none_due (fuel + 3) fl source config calls c c' plain made
          run in
      let m = replay_all calls (λ j. none) in
      let (c'', wrote, (h'', k''), stored, there) =
        set-returns order visit items none_due fuel each config.max_cost nonneg key 0 value
          (expiry clock ttl) c' h k in
      let x'' =
        set-IsExact order visit items none_due (fuel + 3) key value each (expiry clock ttl) m c' c''
          h x ((true, c''), wrote, refl) in
      let known = there (has-matches key m c' x) fits in
      (
        c,
        made,
        (
          c',
          run,
          (
            c'',
            set_with_ttl-timely order (fuel + 3) clock key 0 value each ttl c' ready ∙ wrote,
            get-IsExact elapsed key _ c'' h'' x''
                ∙ ap (λ v. ok (v, record c'' { get_buf = refilled c''.get_buf }))
                    (shown-recent elapsed key value each (expiry clock ttl) m _ late known),
          ),
        ),
      )
