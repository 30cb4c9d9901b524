-- ===== src/Cache/Writes.antt =====
-- What `set_with_ttl` and `del` of src/cache.rs do to the store.
pub mod Asks
pub mod Written
use memory_cache_rust.Prelude.{
  ℕ, ◌≡◌, refl, ◌∙◌, ◌≢◌, Bool, true, false, ◌&&◌, List, Option, none, some, ok, >>=-ok,
  if◌then◌else◌, nat_beq, arith, Bool-cases, inl, inr,
}
use memory_cache_rust.Prelude.Int.{ℤ}
use memory_cache_rust.Prelude.HashMap.{HashMap}
use memory_cache_rust.Cache.{Cache, init_store, insert_new, insert_update, set_until, del, note}
use memory_cache_rust.Cache.Evict.{
  Stocked, Stocked-Changed, view-Changed, listed, evict_victims_lem,
}
use memory_cache_rust.Cache.Reads.{note-same}
use memory_cache_rust.Item.{Item, Node, item_new}
use memory_cache_rust.Metrics.{IsUnused, key_add}
use memory_cache_rust.Policy
use memory_cache_rust.Policy.{DefaultPolicy}
use memory_cache_rust.SampledLfu.{PolicyPair}
use memory_cache_rust.Store
use memory_cache_rust.Store.{Store, node_of}
use memory_cache_rust.Store.Refine.{
  Dated, Valued, admits, matches, set_node-Changed, update-Changed, del-Changed,
}
use memory_cache_rust.Store.View.{view, Changed}

module _ {V : Type 0} where
  abbrev pub store_of : Cache V → Store V
  store_of c = elim c.store [ none ↦ init_store none | some s ↦ s ]

  -- The item of a call of `set_with_ttl` with the expiration `ttl`.
  abbrev pub item_of : ℕ → ℕ → V → ℤ → ℕ → Item V
  item_of key conflict value cost ttl = record {
    flag = item_new;
    key = key;
    conflict = conflict;
    value = some value;
    cost = cost;
    expiration = some ttl;
  }

  Dated-item : (t : ℕ) (o : Option (Node V)) → Dated (some t) o
  Dated-item t none = tt
  Dated-item t (some v) = λ h e. absurd (ground arith)

  Valued-if :
      (b : Bool) (item : Node V) (o : Option (Node V))
      → item.value ≢ none
      → Valued o
      → Valued (if b then some item else o)
  Valued-if true item o h v = h
  Valued-if false item o h v = v

  Valued-unless : (b : Bool) (o : Option (Node V)) → Valued o → Valued (if b then none else o)
  Valued-unless true o v = tt
  Valued-unless false o v = v

  at_key :
      (a : Bool) (key j : ℕ) (o : Option (Node V)) (s : Store V)
      → (if nat_beq key j then if a then o else view s key else view s j)
        ≡ (if a && nat_beq key j then o else view s j)
  at_key true key j o s = refl
  at_key false key j o s = elim (Bool-cases (nat_beq key j)) [
    | inl e ↦ let q : key ≡ j = ground arith in rw e (rw q refl)
    | inr e ↦ rw e refl
  ]

  module _ (order : HashMap ℕ ℤ → List PolicyPair) (fuel key conflict : ℕ) (value : V) (cost : ℤ)
      (ttl : ℕ) where
    -- From its expiration on, a `set_with_ttl` of a key that the store has, with a conflict hash that fits, returns `true`
    -- where the policy's update returns and the nodes of the store have values: the key then holds
    -- the new item, no other key changes, and the policy is the updated one.
    pub set_until_known :
        (c : Cache V) (p : DefaultPolicy)
        → Stocked (store_of c)
        → matches conflict (view (store_of c) key) ≡ true
        → Policy.update key cost c.policy ≡ ok p
        → (s' : Store V) × (set_until order fuel key conflict value cost ttl c
            ≡ ok (true, record c { store = some s'; policy = p }))
          × Stocked s'
          × Changed key (some (node_of (item_of key conflict value cost ttl))) (store_of c) s'
    unfolding set_until insert_update
    set_until_known c p w known run =
        let item = item_of key conflict value cost ttl in
        let (s', stored, ch) =
          update-Changed item (store_of c) w.valid (Dated-item ttl (view (store_of c) key)) in
        let ch' : Changed key (some (node_of item)) (store_of c) s' = (rw known at ch) in
        (
          s',
          >>=-ok stored _ ∙ rw known (>>=-ok (>>=-ok run _) _),
          Stocked-Changed key _ (store_of c) s' w (λ e. absurd (ground arith)) ch',
          ch',
        )

    -- The store of `insert_new` before the victims are taken.
    stored_if :
        (added : Bool) (s : Store V)
        → Stocked s
        → (s' : Store V) × ((if added
              then Store.set_node (node_of (item_of key conflict value cost ttl)) s
              else ok s)
            ≡ ok s')
          × Stocked s'
          × ((j : ℕ)
              → view s' j ≡ (
                  if added && admits conflict (view s key) && nat_beq key j
                  then some (node_of (item_of key conflict value cost ttl))
                  else view s j))
    stored_if false s w = (s, refl, w, λ j. refl)
    stored_if true s w =
        let item = item_of key conflict value cost ttl in
        let (s', run, ch) =
          set_node-Changed (node_of item) s w.valid (Dated-item ttl (view s key)) in
        (
          s',
          run,
          Stocked-Changed key _ s s' w
              (Valued-if (admits conflict (view s key)) (node_of item) (view s key)
                (λ e. absurd (ground arith)) (w.valued key))
              ch,
          λ j.
              view-Changed key _ s s' j ch
              ∙ at_key (admits conflict (view s key)) key j (some (node_of item)) s,
        )

    note_if :
        (added : Bool) (c : Cache V)
        → IsUnused c.metrics
        → (if added then note key_add key c else ok c) ≡ ok c
    note_if true c m = note-same key_add key c m (omega arith)
    note_if false c m = refl

    -- From its expiration on, a `set_with_ttl` of a key that the store does not have, or has with another conflict
    -- hash, returns `true` where the policy's addition returns, the nodes of the store have values and no metrics have
    -- counted: the key holds the new item if the policy has added it, the store admits its conflict hash and it is no
    -- victim; the keys of the victims hold nothing.
    pub set_until_new :
        (c : Cache V) (p : DefaultPolicy) (victims : List (Item V)) (added : Bool)
        → Stocked (store_of c)
        → IsUnused c.metrics
        → matches conflict (view (store_of c) key) ≡ false
        → Policy.add order fuel key cost c.policy ≡ ok (p, victims, added)
        → (s' : Store V) × (set_until order fuel key conflict value cost ttl c
            ≡ ok (true, record c { store = some s'; policy = p }))
          × Stocked s'
          × ((j : ℕ)
              → view s' j ≡ (
                  if listed j victims
                  then none
                  else if added && admits conflict (view (store_of c) key) && nat_beq key j
                  then some (node_of (item_of key conflict value cost ttl))
                  else view (store_of c) j))
    unfolding set_until insert_new
    set_until_new c p victims added w m unknown run =
        let item = item_of key conflict value cost ttl in
        let (s1, updated, ch) =
          update-Changed item (store_of c) w.valid (Dated-item ttl (view (store_of c) key)) in
        let w1 : Stocked s1 =
          Stocked-Changed key _ (store_of c) s1 w (w.valued key) (rw unknown at ch) in
        let same1 : (j : ℕ) → view s1 j ≡ view (store_of c) j = λ j.
          view-Changed key _ (store_of c) s1 j (rw unknown at ch)
          ∙ at_key false key j none (store_of c) in
        let (s2, stored, w2, same2) = stored_if added s1 w1 in
        let (s3, evicted, w3, same3) = evict_victims_lem victims s2 w2 in
        (
          s3,
          >>=-ok updated _
              ∙ rw unknown (
                  >>=-ok
                    (>>=-ok run _
                      ∙ (>>=-ok stored _ ∙ (>>=-ok (note_if added c m) _ ∙ >>=-ok evicted _)))
                    _),
          w3,
          λ j. same3 j ∙ rw (same2 j) (rw (same1 key) (rw (same1 j) refl)),
        )

  -- The cache's `del`, on a store whose nodes have values, returns: the key holds nothing if the
  -- conflict hash fits its node, else what it did; no other key changes, and the policy has the
  -- key deleted either way.
  pub del_lem :
      (key conflict : ℕ) (c : Cache V) (s : Store V)
      → c.store ≡ some s
      → Stocked s
      → (s' : Store V) × (del key conflict c
          ≡ ok (record c { store = some s'; policy = Policy.del key c.policy }))
        × Stocked s'
        × Changed key (if matches conflict (view s key) then none else view s key) s s'
  unfolding del
  del_lem key conflict c s e w =
      let (s', run, ch) = del-Changed key conflict s w.valid (w.valued key) in
      (
        s',
        rw e (>>=-ok run _),
        Stocked-Changed key _ s s' w
            (Valued-unless (matches conflict (view s key)) (view s key) (w.valued key)) ch,
        ch,
      )
