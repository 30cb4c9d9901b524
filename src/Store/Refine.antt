-- ===== src/Store/Refine.antt =====
-- `set`, `update` and `del` of src/store.rs as changes of a partial map at one key.
use memory_cache_rust.Prelude.{
  ℕ, ◌≡◌, refl, ◌≢◌, ◌∙◌, Bool, true, false, not, Option, none, some, nat_eq, ok, arith,
  if◌then◌else◌, Bool-cases, Option-cases, inl, inr, set,
}
use memory_cache_rust.Prelude.HashMap
use memory_cache_rust.Item.{Item, Node}
use memory_cache_rust.Store.{Store, node_of, set_node, update, del, put, clashes, bini}
use memory_cache_rust.Store.View.{
  IsValid, view, shard_of, Changed, shard-bind, set-Changed, put-Changed, same-Changed,
}
use memory_cache_rust.Ttl
use memory_cache_rust.Ttl.{ExpirationMap}

module _ {V : Type 0} where
  -- A new value of a key with the same conflict hash, or with none given, is taken.
  abbrev pub admits : ℕ → Option (Node V) → Bool
  admits conflict none = true
  admits conflict (some v) = not (clashes v.conflict conflict)

  -- The node there has no expiration, or the new one has one.
  abbrev pub Dated : Option ℕ → Option (Node V) → Type 0
  Dated expiration none = Unit
  Dated expiration (some v) = v.expiration ≢ none → expiration ≢ none

  -- The node there is not another key's.
  abbrev pub matches : ℕ → Option (Node V) → Bool
  matches conflict none = false
  matches conflict (some v) = not (clashes v.conflict conflict)

  -- The `set` of a store with its shards returns, unless an expiring node is overwritten by one
  -- that never expires: the item's key then holds the item, or what it did where that has another
  -- conflict hash, and no other key changes.
  pub set_node-Changed :
      (item : Node V) (s : Store V)
      → IsValid s
      → Dated item.expiration (view s item.key)
      → (s' : Store V) × (set_node item s ≡ ok s')
        × Changed item.key
            (if admits item.conflict (view s item.key) then some item else view s item.key)
            s
            s'
  unfolding set_node
  set_node-Changed item s w d = elim (Option-cases (view s item.key)) [
    | inl e ↦
        let em : ExpirationMap = elim item.expiration [
          | none ↦ s.em
          | some t ↦ Ttl.add item.key item.conflict t s.em
        ] in
        (
          put item.key item (shard_of s item.key) em s,
          shard-bind s item.key w _ ∙ rw e refl,
          rw e (put-Changed item.key item em s w),
        )
    | inr (v, e) ↦ elim (Bool-cases (clashes v.conflict item.conflict)) [
      | inl c ↦ (
        s,
        shard-bind s item.key w _ ∙ rw e (rw c refl),
        rw e (rw c (rw e at (same-Changed item.key s w))),
      )
      | inr c ↦ elim (Option-cases v.expiration) [
        | inl x ↦ (
          put item.key item (shard_of s item.key) s.em s,
          shard-bind s item.key w _ ∙ rw e (rw c (rw x refl)),
          rw e (rw c (put-Changed item.key item s.em s w)),
        )
        | inr (old, x) ↦ elim (Option-cases item.expiration) [
          | inl y ↦ absurd ((rw e at d) (λ z. absurd (ground arith)) y)
          | inr (t, y) ↦
              let em = Ttl.update item.key item.conflict old t s.em in
              (
                put item.key item (shard_of s item.key) em s,
                shard-bind s item.key w _ ∙ rw e (rw c (rw x (rw y refl))),
                rw e (rw c (put-Changed item.key item em s w)),
              )
        ]
      ]
    ]
  ]

  -- The `update` of a store with its shards returns, unless an expiring node is overwritten by one
  -- that never expires: it reports whether the key is there, with a conflict hash that fits, and
  -- then the key holds the new item; else it keeps what it had. No other key changes.
  pub update-Changed :
      (item : Item V) (s : Store V)
      → IsValid s
      → Dated item.expiration (view s item.key)
      → (s' : Store V) × (update item s ≡ ok (matches item.conflict (view s item.key), s'))
        × Changed item.key
            (if matches item.conflict (view s item.key)
              then some (node_of item)
              else view s item.key)
            s
            s'
  unfolding update
  update-Changed item s w d = elim (Option-cases (view s item.key)) [
    | inl e ↦ (s, shard-bind s item.key w _ ∙ rw e refl, rw e (rw e at (same-Changed item.key s w)))
    | inr (v, e) ↦ elim (Bool-cases (clashes v.conflict item.conflict)) [
      | inl c ↦ (
        s,
        shard-bind s item.key w _ ∙ rw e (rw c refl),
        rw e (rw c (rw e at (same-Changed item.key s w))),
      )
      | inr c ↦ elim (Option-cases v.expiration) [
        | inl x ↦ (
          put item.key (node_of item) (shard_of s item.key) s.em s,
          shard-bind s item.key w _ ∙ rw e (rw c (rw x refl)),
          rw e (rw c (put-Changed item.key (node_of item) s.em s w)),
        )
        | inr (old, x) ↦ elim (Option-cases item.expiration) [
          | inl y ↦ absurd ((rw e at d) (λ z. absurd (ground arith)) y)
          | inr (t, y) ↦
              let em = Ttl.update item.key item.conflict old t s.em in
              (
                put item.key (node_of item) (shard_of s item.key) em s,
                shard-bind s item.key w _ ∙ rw e (rw c (rw x (rw y refl))),
                rw e (rw c (put-Changed item.key (node_of item) em s w)),
              )
        ]
      ]
    ]
  ]

  -- What a deletion hands back.
  abbrev pub taken : Option (Node V) → Option (ℕ × V)
  taken none = none
  taken (some v) = elim v.value [ none ↦ none | some x ↦ some (v.conflict, x) ]

  abbrev pub Valued : Option (Node V) → Type 0
  Valued none = Unit
  Valued (some v) = v.value ≢ none

  -- The `del` of a store with its shards returns, where the node at the key, if there is one, has
  -- a value: if the conflict hash fits, it hands back the node's conflict hash and value and
  -- leaves nothing at the key; else it hands back nothing and the key keeps what it had. No other
  -- key changes.
  pub del-Changed :
      (key conflict : ℕ) (s : Store V)
      → IsValid s
      → Valued (view s key)
      → (s' : Store V) × (del key conflict s
          ≡ ok (if matches conflict (view s key) then taken (view s key) else none, s'))
        × Changed key (if matches conflict (view s key) then none else view s key) s s'
  unfolding del
  del-Changed key conflict s w d = elim (Option-cases (view s key)) [
    | inl e ↦ (s, shard-bind s key w _ ∙ rw e refl, rw e (rw e at (same-Changed key s w)))
    | inr (v, e) ↦ elim (Bool-cases (clashes v.conflict conflict)) [
      | inl c ↦
          (s, shard-bind s key w _ ∙ rw e (rw c refl), rw e (rw c (rw e at (same-Changed key s w))))
      | inr c ↦ elim (Option-cases v.value) [
        | inl x ↦ absurd ((rw e at d) x)
        | inr (a, x) ↦
            let em : ExpirationMap = elim v.expiration [
              | none ↦ s.em
              | some t ↦ Ttl.del v.key t s.em
            ] in
            let m = HashMap.remove key (shard_of s key) in
            (
              record s { shards = set s.shards (bini key) m; em = em },
              shard-bind s key w _ ∙ rw e (rw c (rw x refl)),
              rw e (
                  rw c (
                    set-Changed key none m em s w
                      (rw (HashMap.get-remove key key (shard_of s key)) (ground arith))
                      (λ j h. rw (HashMap.get-remove key j (shard_of s key)) (ground arith)))),
            )
      ]
    ]
  ]
