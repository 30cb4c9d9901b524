-- ===== src/Cache/Process.antt =====
-- `process_items` and `init_policy` of src/cache.rs. The policy of a cache is not null; `cost` and `on_evict` are `None`.
pub mod Refused
use memory_cache_rust.Prelude.{
  ℕ, zero, suc, Bool, true, false, List, [], ◌∷◌, Option, none, some, Run, ok, panic, timeout,
  ◌>>=◌,
}
use memory_cache_rust.Prelude.Int.{ℤ}
use memory_cache_rust.Prelude.HashMap.{HashMap}
use memory_cache_rust.Bloom.{Floats}
use memory_cache_rust.Cache.{Cache, Config, evict_victims}
use memory_cache_rust.Item.{Item, Node, ItemFlag, item_new, item_delete, item_update}
use memory_cache_rust.Metrics.{Metrics}
use memory_cache_rust.Policy
use memory_cache_rust.Policy.{DefaultPolicy}
use memory_cache_rust.Ring
use memory_cache_rust.Ring.{RingStripe}
use memory_cache_rust.SampledLfu.{PolicyPair}
use memory_cache_rust.Store
use memory_cache_rust.Store.{Store}

module _ {V : Type 0} where
  -- The loop over the victims, which dereferences the store for each of them.
  unfoldable pub evict_stored : List (Item V) → Option (Store V) → Run (Option (Store V))
  evict_stored [] s = ok s
  evict_stored (v ∷ vs) none = panic
  evict_stored (v ∷ vs) (some s) = evict_victims (v ∷ vs) s >>= λ s'. ok (some s')

  module _ (order : HashMap ℕ ℤ → List PolicyPair) (fuel : ℕ) where
    -- The loop for a new item, at most `rounds` times: it ends only by an addition.
    unfoldable pub process_new : ℕ → Node V → Item V → Cache V → Run (Cache V)
    process_new zero node item c = timeout
    process_new (suc rounds) node item c =
        Policy.add order fuel item.key item.cost c.policy >>= λ r.
        let (policy, victims, added) = r in
        elim added [
          | true ↦ Store.unwrap c.store >>= λ store. Store.set_node node store >>= λ store'.
              ok (record c { store = some store'; policy = policy })
          | false ↦ evict_stored victims c.store >>= λ store.
              process_new rounds node item (record c { store = store; policy = policy })
        ]

    unfoldable pub process_delete : Item V → Cache V → Run (Cache V)
    process_delete item c = Store.unwrap c.store >>= λ store.
        Store.del item.key item.conflict store >>= λ r.
        ok (record c { store = some r.1; policy = Policy.del item.key c.policy })

    unfoldable pub process_update : Item V → Cache V → Run (Cache V)
    process_update item c =
        Policy.update item.key item.cost c.policy >>= λ policy. ok (record c { policy = policy })

    -- The branches of `process_items` for the flags.
    unfoldable pub process_flag : ItemFlag → ℕ → Node V → Item V → Cache V → Run (Cache V)
    process_flag item_new rounds node item c = process_new rounds node item c
    process_flag item_delete rounds node item c = process_delete item c
    process_flag item_update rounds node item c = process_update item c

    unfoldable pub process_items : ℕ → Node V → Item V → Cache V → Run (Cache V)
    process_items rounds node item c = process_flag item.flag rounds node item c

-- `init_policy` by a thread that is alone, for at most `rounds` rounds: a null policy is built with the metrics, and
-- the ring buffer after it if that is null too; without metrics the loop goes on.
unfoldable pub init_policy :
    (fl : Floats)
    → ℕ
    → Config
    → Option Metrics
    → ℕ
    → Option DefaultPolicy
    → Option RingStripe
    → Run (DefaultPolicy × Option RingStripe)
init_policy fl source config metrics rounds (some p) ring = ok (p, ring)
init_policy fl source config metrics zero none ring = timeout
init_policy fl source config none (suc rounds) none ring =
    init_policy fl source config none rounds none ring
init_policy fl source config (some m) (suc rounds) none ring =
    Policy.new fl source config.numb_counters config.max_cost (some m) >>= λ p.
    ok (p, some (elim ring [ none ↦ Ring.new config.buffer_items | some r ↦ r ]))
