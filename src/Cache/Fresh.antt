-- ===== src/Cache/Fresh.antt =====
-- A read of src/cache.rs after a write of the same key.
use memory_cache_rust.Prelude.{
  ℕ, ◌≡◌, ◌⊎◌, inl, inr, refl, sym, ap, ◌∙◌, Bool, true, false, List, Option, none, some, ok,
  subst_ok, nat_beq, Bool-cases, if◌then◌else◌, ◌&&◌, arith,
}
use memory_cache_rust.Prelude.Int.{ℤ}
use memory_cache_rust.Prelude.HashMap.{HashMap}
use memory_cache_rust.Cache
use memory_cache_rust.Cache.{Cache, set_until, set_with_ttl, del}
use memory_cache_rust.Cache.Expiry.{expiry, set_with_ttl-until}
use memory_cache_rust.Cache.Evict.{Stocked, listed}
use memory_cache_rust.Cache.History.Sound.{
  IsHealthy, IsHealthy-IsReady, store_of-Stocked, stored-Healthy,
}
use memory_cache_rust.Cache.Reads.{get-shown_by}
use memory_cache_rust.Cache.Writes.{store_of, item_of, set_until_known, set_until_new, del_lem}
use memory_cache_rust.Cache.Writes.Asks.{known-asks, unknown-asks}
use memory_cache_rust.Item.{Node}
use memory_cache_rust.Policy
use memory_cache_rust.Ring.{refilled}
use memory_cache_rust.SampledLfu.{PolicyPair}
use memory_cache_rust.Store
use memory_cache_rust.Store.{Store, node_of}
use memory_cache_rust.Store.Reads.{shown}
use memory_cache_rust.Store.Refine.{matches, admits}
use memory_cache_rust.Store.View.{view}

module _ {V : Type 0} where
  -- A read finds nothing in a node of another conflict hash.
  shown-unmatched :
      (elapsed conflict : ℕ) (o : Option (Node V))
      → matches conflict o ≡ false
      → shown elapsed conflict o ≡ none
  shown-unmatched elapsed conflict none e = refl
  shown-unmatched elapsed conflict (some v) e = ground arith

  -- The value, or nothing.
  abbrev pub IsFresh : V → Option V → Type 0
  IsFresh value o = (o ≡ some value) ⊎ (o ≡ none)

  shown-written :
      (elapsed key conflict : ℕ) (value : V) (cost : ℤ) (ttl : ℕ)
      → IsFresh value
          (shown elapsed conflict (some (node_of (item_of key conflict value cost ttl))))
  shown-written elapsed key conflict value cost ttl =
      elim (Bool-cases (Store.hidden elapsed (some ttl))) [
        | inl h ↦ inr ground (arith, h)
        | inr h ↦ inl ground (arith, h)
      ]

  -- A read of a cache returns the value, or nothing.
  abbrev pub ReadsFresh : ℕ → ℕ → ℕ → V → Cache V → Type 0
  ReadsFresh elapsed key conflict value c =
      (r : Option V × Cache V) × (Cache.get elapsed key conflict c ≡ ok r) × IsFresh value r.0

  healthy-ReadsFresh :
      (elapsed key conflict : ℕ) (value : V) (c : Cache V) (s : Store V) (p : Policy.DefaultPolicy)
      → IsHealthy c
      → Stocked s
      → IsFresh value (shown elapsed conflict (view s key))
      → ReadsFresh elapsed key conflict value (record c { store = some s; policy = p })
  healthy-ReadsFresh elapsed key conflict value c s p h w fresh =
      let d : Cache V = record c { store = some s; policy = p } in
      (
        _,
        get-shown_by elapsed key conflict d (IsHealthy-IsReady d (stored-Healthy c s p h w)),
        fresh,
      )

  module _ (order : HashMap ℕ ℤ → List PolicyPair) (fuel key conflict : ℕ) (value : V) (cost : ℤ)
      (ttl : ℕ) (c c' : Cache V) (b : Bool) (elapsed : ℕ) (h : IsHealthy c)
      (e : set_until order fuel key conflict value cost ttl c ≡ ok (b, c')) where
    IsFresh-new :
        (gone added : Bool) (o : Option (Node V))
        → matches conflict o ≡ false
        → IsFresh value (
            shown elapsed conflict (
              if gone
              then none
              else if added
              then some (node_of (item_of key conflict value cost ttl))
              else o))
    IsFresh-new true added o m = inr refl
    IsFresh-new false true o m = shown-written elapsed key conflict value cost ttl
    IsFresh-new false false o m = inr (shown-unmatched elapsed conflict o m)

    get-set_until : ReadsFresh elapsed key conflict value c'
    get-set_until =
        let w = store_of-Stocked c h in
        elim (Bool-cases (matches conflict (view (store_of c) key))) [
          | inl known ↦
              let (p, asked) =
                known-asks order fuel key conflict value cost ttl c w (b, c') e known in
              let (s, run, w', ch) =
                set_until_known order fuel key conflict value cost ttl c p w known asked in
              subst_ok (λ r. ReadsFresh elapsed key conflict value r.1) (sym run ∙ e)
                (healthy-ReadsFresh elapsed key conflict value c s p h w'
                  (rw ch.here (shown-written elapsed key conflict value cost ttl)))
          | inr unknown ↦
              let ((p, victims, added), asked) =
                unknown-asks order fuel key conflict value cost ttl c w (b, c') e unknown in
              let (s, run, w', same) =
                set_until_new order fuel key conflict value cost ttl c p victims added w h.metered
                  unknown asked in
              subst_ok (λ r. ReadsFresh elapsed key conflict value r.1) (sym run ∙ e)
                (healthy-ReadsFresh elapsed key conflict value c s p h w' (
                  rw (same key) (
                    IsFresh-new (listed key victims)
                      (added && admits conflict (view (store_of c) key) && nat_beq key key)
                      (view (store_of c) key) unknown)))
        ]

  -- After a `set_with_ttl` of a key that has returned, a `get` of the key with its conflict hash
  -- returns, with the new value or with nothing, never with an older value, whatever the time to
  -- live, whatever the policy decided and whichever nodes had the key's hash. This is on a cache
  -- whose store, if it is built, has a value in every node, and whose buffer and metrics are as
  -- the code leaves them.
  pub get-set_with_ttl :
      (order : HashMap ℕ ℤ → List PolicyPair) (fuel : ℕ) (clock : Option ℕ) (key conflict : ℕ)
      (value : V) (cost : ℤ) (ttl : ℕ) (c c' : Cache V) (b : Bool) (elapsed : ℕ)
      → IsHealthy c
      → set_with_ttl order fuel clock key conflict value cost ttl c ≡ ok (b, c')
      → ReadsFresh elapsed key conflict value c'
  get-set_with_ttl order fuel clock key conflict value cost ttl c c' b elapsed h e =
      get-set_until order fuel key conflict value cost (expiry clock ttl) c c' b elapsed h
        (set_with_ttl-until order fuel clock key conflict value cost ttl c (b, c') e)

  hidden_by :
      (elapsed conflict : ℕ) (o : Option (Node V))
      → shown elapsed conflict (if matches conflict o then none else o) ≡ none
  hidden_by elapsed conflict o = elim (Bool-cases (matches conflict o)) [
    | inl m ↦ rw m refl
    | inr m ↦ rw m (shown-unmatched elapsed conflict o m)
  ]

  -- On a cache whose store is built, with a value in every node, and whose buffer and metrics are
  -- as the code leaves them, a `del` of a key returns, and a `get` of the key with the same
  -- conflict hash then finds nothing.
  pub get-del :
      (elapsed key conflict : ℕ) (c : Cache V) (s : Store V)
      → IsHealthy c
      → c.store ≡ some s
      → (c' : Cache V) × (del key conflict c ≡ ok c')
        × ((c'' : Cache V) × (Cache.get elapsed key conflict c' ≡ ok (none, c'')))
  get-del elapsed key conflict c s h there =
      let (s', run, w', ch) = del_lem key conflict c s there (h.stocked s there) in
      let p = Policy.del key c.policy in
      let d : Cache V = record c { store = some s'; policy = p } in
      let read =
        get-shown_by elapsed key conflict d (IsHealthy-IsReady d (stored-Healthy c s' p h w')) in
      let missing : shown elapsed conflict (view s' key) ≡ none =
        rw ch.here (hidden_by elapsed conflict (view s key)) in
      (d, run, (_, read ∙ ap (λ o. ok (o, record d { get_buf = refilled d.get_buf })) missing))
