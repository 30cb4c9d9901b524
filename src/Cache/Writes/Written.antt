-- ===== src/Cache/Writes/Written.antt =====
-- What `set_with_ttl` of src/cache.rs does to the store, and where it panics.
use memory_cache_rust.Prelude.{
  ℕ, ◌≡◌, ◌∙◌, Bool, true, false, ◌&&◌, List, Option, none, some, ok, if◌then◌else◌, nat_beq,
}
use memory_cache_rust.Prelude.Int.{ℤ}
use memory_cache_rust.Prelude.HashMap.{HashMap}
use memory_cache_rust.Cache.{Cache, set_with_ttl}
use memory_cache_rust.Cache.Evict.{Stocked, listed}
use memory_cache_rust.Cache.Expiry.{expiry, timely, set_with_ttl-timely}
use memory_cache_rust.Cache.Writes.{store_of, item_of, set_until_new, set_until_known}
use memory_cache_rust.Item.{Item}
use memory_cache_rust.Metrics.{IsUnused}
use memory_cache_rust.Policy
use memory_cache_rust.Policy.{DefaultPolicy}
use memory_cache_rust.SampledLfu.{PolicyPair}
use memory_cache_rust.Store.{Store, node_of}
use memory_cache_rust.Store.Refine.{admits, matches}
use memory_cache_rust.Store.View.{view, Changed}

module _ {V : Type 0} (order : HashMap ℕ ℤ → List PolicyPair) (fuel : ℕ) (clock : Option ℕ)
    (key conflict : ℕ) (value : V) (cost : ℤ) (ttl : ℕ) where
  -- A `set_with_ttl` of a key that the store does not have, or has with another conflict hash,
  -- returns `true` where the policy's addition returns, the time to live is not above 0 and below
  -- a millisecond, or the clock answers and the sum is a duration, the nodes of the store have
  -- values and no metrics have counted: the keys of the victims then hold nothing, the key holds
  -- the new item, which expires at that sum, or at any other time to live itself, if the policy
  -- has added it, the store admits its conflict hash and it is no victim, and the other keys hold
  -- what they did.
  pub set_with_ttl_new :
      (c : Cache V) (p : DefaultPolicy) (victims : List (Item V)) (added : Bool)
      → timely clock ttl ≡ true
      → Stocked (store_of c)
      → IsUnused c.metrics
      → matches conflict (view (store_of c) key) ≡ false
      → Policy.add order fuel key cost c.policy ≡ ok (p, victims, added)
      → (s' : Store V) × (set_with_ttl order fuel clock key conflict value cost ttl c
          ≡ ok (true, record c { store = some s'; policy = p }))
        × Stocked s'
        × ((j : ℕ)
            → view s' j ≡ (
                if listed j victims
                then none
                else if added && admits conflict (view (store_of c) key) && nat_beq key j
                then some (node_of (item_of key conflict value cost (expiry clock ttl)))
                else view (store_of c) j))
  set_with_ttl_new c p victims added h w m unknown run =
      let (s', wrote, w', same) =
        set_until_new order fuel key conflict value cost (expiry clock ttl) c p victims added w m
          unknown run in
      (s', set_with_ttl-timely order fuel clock key conflict value cost ttl c h ∙ wrote, w', same)

  -- A `set_with_ttl` of a key that the store has, with a conflict hash that fits, returns `true`
  -- where the policy's update returns, the nodes of the store have values, and the time to live is
  -- not above 0 and below a millisecond, or the clock answers and the sum is a duration: the key
  -- then holds the new item, which expires at that sum, or at any other time to live itself, no
  -- other key changes, and the policy is the updated one.
  pub set_with_ttl_known :
      (c : Cache V) (p : DefaultPolicy)
      → timely clock ttl ≡ true
      → Stocked (store_of c)
      → matches conflict (view (store_of c) key) ≡ true
      → Policy.update key cost c.policy ≡ ok p
      → (s' : Store V) × (set_with_ttl order fuel clock key conflict value cost ttl c
          ≡ ok (true, record c { store = some s'; policy = p }))
        × Stocked s'
        × Changed key
            (some (node_of (item_of key conflict value cost (expiry clock ttl))))
            (store_of c)
            s'
  set_with_ttl_known c p h w known run =
      let (s', wrote, w', changed) =
        set_until_known order fuel key conflict value cost (expiry clock ttl) c p w known run in
      (
        s',
        set_with_ttl-timely order fuel clock key conflict value cost ttl c h ∙ wrote,
        w',
        changed,
      )
