-- ===== src/Cache.antt =====
-- src/cache.rs: the cache over the store, the policy and the ring buffer. The caller's keys come in
-- as the pair that `hash` computes from them. `store` is an atomic pointer, `none` before the first
-- insertion; the policy and the ring buffer are built with the cache and never null. `on_evict` and
-- `cost` are `None` in every cache that `with_hasher` builds.
pub mod Fresh
pub mod History
pub mod Init
pub mod Owner
pub mod Process
pub mod Reads
pub mod Replay
pub mod Total
pub mod Writes
pub mod Coherent
pub mod Evict
pub mod Expiry
use memory_cache_rust.Prelude.{
  ℕ, zero, suc, ◌^◌, Bool, true, false, List, [], ◌∷◌, Option, none, some, if◌then◌else◌, nat_beq,
  ltb, ◌+◌, ◌*◌, Run, ok, panic, timeout, ◌>>=◌,
}
use memory_cache_rust.Prelude.Int.{ℤ, pos}
use memory_cache_rust.Prelude.HashMap.{HashMap}
use memory_cache_rust.Bloom.{Floats}
use memory_cache_rust.Item.{Item, item_new, as_millis}
use memory_cache_rust.Metrics
use memory_cache_rust.Metrics.{Metrics, hit, miss, key_add, do_not_use}
use memory_cache_rust.Policy
use memory_cache_rust.Policy.{DefaultPolicy}
use memory_cache_rust.Ring
use memory_cache_rust.Ring.{RingStripe}
use memory_cache_rust.SampledLfu.{PolicyPair}
use memory_cache_rust.Store
use memory_cache_rust.Store.{Store, node_of}

pub record Config : Type 0 where
  pub numb_counters : ℤ
  pub max_cost : ℤ
  pub buffer_items : ℕ
  pub metrics : Bool

pub record Cache (V : Type 0) : Type 0 where
  pub store : Option (Store V)
  pub policy : DefaultPolicy
  pub get_buf : RingStripe
  pub metrics : Option Metrics

unfoldable pub with_hasher : {V : Type 0} → Floats → ℕ → Config → Run (Cache V)
with_hasher fl source c =
    let metrics : Option Metrics = if c.metrics then some (Metrics.new do_not_use) else none in
    Policy.new fl source c.numb_counters c.max_cost metrics >>= λ policy.
    ok (record {
      store = none;
      policy = policy;
      get_buf = Ring.new c.buffer_items;
      metrics = metrics;
    })

-- The assertion on a guard's collector, `none` for the guard without one. Of the operations below `set` and `clean_up`
-- begin with it; the calls are made with guards of the cache's own collector.
unfoldable pub check_guard : Option ℕ → ℕ → Run (Unit {0})
check_guard none collector = ok tt
check_guard (some c) collector = if nat_beq c collector then ok tt else panic

-- `Config::default`, and the cache of `Cache::new`.
abbrev pub default_config : Config
default_config = record {
  numb_counters = pos 10_000_000;
  max_cost = pos (2 ^ 30);
  buffer_items = 64;
  metrics = false;
}

unfoldable pub default_cache : {V : Type 0} → Floats → ℕ → Run (Cache V)
unfolding with_hasher
default_cache fl source = with_hasher fl source default_config

-- `metrics.add` if the cache has metrics.
unfoldable pub note : {V : Type 0} → ℕ → ℕ → Cache V → Run (Cache V)
note kind key c = elim c.metrics [
  | none ↦ ok c
  | some m ↦ Metrics.add kind key 1 m >>= λ m'. ok (record c { metrics = some m' })
]

-- A duration in nanoseconds is below this.
abbrev pub duration_end : ℕ
duration_end = 2 ^ 64 * 1_000_000_000

-- The expiration that `set_with_ttl` gives an item, which is always `Some`. A duration is never negative. One above 0
-- and below a millisecond is added to what `SystemTime::now().elapsed()` answers, `none` for an error.
unfoldable pub expiration_of : Option ℕ → ℕ → Run ℕ
expiration_of clock ttl =
    if nat_beq ttl 0 then ok ttl else if ltb 0 (as_millis ttl) then ok ttl else elim clock [
      | none ↦ panic
      | some now ↦ if ltb (now + ttl) duration_end then ok (now + ttl) else panic
    ]

module _ {V : Type 0} where
  -- A miss is reported as `HIT`, and a hit as `MISS`.
  unfoldable pub get : ℕ → ℕ → ℕ → Cache V → Run (Option V × Cache V)
  unfolding note
  get elapsed key_hash conflict c = Ring.push key_hash c.get_buf c.policy >>= λ sent.
      let c' : Cache V = record c { get_buf = sent.0; policy = sent.1 } in
      elim c'.store [
        | none ↦ ok (none, c')
        | some store ↦ Store.get elapsed key_hash conflict store >>= λ result. elim result [
          | none ↦ note hit key_hash c' >>= λ c''. ok (none, c'')
          | some v ↦ note miss key_hash c' >>= λ c''. ok (some v, c'')
        ]
      ]

  -- The store after `init_store`, by a thread that is alone: `is_empty` holds of no store built.
  unfoldable pub init_store : Option (Store V) → Store V
  init_store none = Store.new
  init_store (some s) = if Store.is_empty s then Store.new else s

  -- The loop over the victims: each is taken from the store, whatever its conflict hash.
  unfoldable pub evict_victims : List (Item V) → Store V → Run (Store V)
  evict_victims [] s = ok s
  evict_victims (v ∷ vs) s = Store.del v.key 0 s >>= λ r. evict_victims vs r.1

  module _ (order : HashMap ℕ ℤ → List PolicyPair) (fuel : ℕ) where
    -- The branch of `set_with_ttl` for a key that the store did not have.
    unfoldable pub insert_new : Item V → Store V → Cache V → Run (Cache V)
    unfolding evict_victims note
    insert_new item store c = Policy.add order fuel item.key item.cost c.policy >>= λ r.
        let (policy, victims, added) = r in
        (if added then Store.set_node (node_of item) store else ok store) >>= λ store'.
        (if added then note key_add item.key c else ok c) >>= λ c'.
        evict_victims victims store' >>= λ store''.
        ok (record c' { store = some store''; policy = policy })

    -- The branch for a key that the store had and has updated.
    unfoldable pub insert_update : Item V → Store V → Cache V → Run (Cache V)
    insert_update item store c = Policy.update item.key item.cost c.policy >>= λ policy.
        ok (record c { store = some store; policy = policy })

    -- `set_with_ttl` from the key's hash on, where the expiration is known.
    unfoldable pub set_until : ℕ → ℕ → V → ℤ → ℕ → Cache V → Run (Bool × Cache V)
    unfolding init_store insert_new insert_update
    set_until key_hash conflict value cost expiration c =
        let store : Store V = elim c.store [ none ↦ init_store none | some s ↦ s ] in
        let item : Item V = record {
          flag = item_new;
          key = key_hash;
          conflict = conflict;
          value = some value;
          cost = cost;
          expiration = some expiration;
        } in
        Store.update item store >>= λ r.
        (if r.0 then insert_update item r.1 c else insert_new item r.1 c) >>= λ c'. ok (true, c')

    -- `clock` is what the clock's `elapsed` answers.
    unfoldable pub set_with_ttl : Option ℕ → ℕ → ℕ → V → ℤ → ℕ → Cache V → Run (Bool × Cache V)
    unfolding expiration_of set_until
    set_with_ttl clock key_hash conflict value cost ttl c =
        expiration_of clock ttl >>= λ expiration.
        set_until key_hash conflict value cost expiration c

    unfoldable pub set : Option ℕ → ℕ → ℕ → V → ℤ → Cache V → Run (Bool × Cache V)
    unfolding set_with_ttl
    set clock key_hash conflict value cost c = set_with_ttl clock key_hash conflict value cost 0 c

  -- `process_items` for the flag of a deletion; a null store is dereferenced.
  unfoldable pub del : ℕ → ℕ → Cache V → Run (Cache V)
  del key_hash conflict c = elim c.store [
    | none ↦ panic
    | some store ↦ Store.del key_hash conflict store >>= λ r.
        ok (record c { store = some r.1; policy = Policy.del key_hash c.policy })
  ]

  -- `clear` ends by a call of itself: `depth` bounds the stack.
  unfoldable pub clear : ℕ → Cache V → Run (Cache V)
  clear zero c = timeout
  clear (suc depth) c = clear depth (record c {
    policy = Policy.clear c.policy;
    store = elim c.store [ none ↦ none | some s ↦ some (Store.clear s) ];
  })

  unfoldable pub clean_up : (HashMap ℕ ℕ → List (ℕ × ℕ)) → ℕ → Cache V → Run (Cache V)
  clean_up items now c = elim c.store [
    | none ↦ panic
    | some store ↦ Store.clean_up items now store c.policy >>= λ r.
        ok (record c { store = some r.0; policy = r.1 })
  ]
