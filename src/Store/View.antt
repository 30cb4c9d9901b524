-- ===== src/Store/View.antt =====
-- The abstract store of src/store.rs: a partial map from key to node, and the state that refines it.
use memory_cache_rust.Prelude.{
  ℕ, ◌<◌, ◌≡◌, refl, sym, ◌≢◌, List, [], Option, none, some, not, ◌&&◌, nat_eq, nat_beq, Run, ok,
  ◌>>=◌, ◌∙◌, arith, length, set, get_or, get_elem?-eq-get_or, get_or-set_self, get_or-set_ne,
  length-set, if◌then◌else◌, Bool-cases, Option-cases, inl, inr,
}
use memory_cache_rust.Prelude.HashMap
use memory_cache_rust.Prelude.HashMap.{HashMap}
use memory_cache_rust.Item.{Node}
use memory_cache_rust.Store.{Store, num_shards, bini, shard, put, get, hidden}
use memory_cache_rust.Ttl.{ExpirationMap}

module _ {V : Type 0} where
  -- As many shards as `bini` counts on.
  pub record IsValid (s : Store V) : Type 0 where
    pub sharded : length s.shards ≡ num_shards

  abbrev pub shard_of : Store V → ℕ → HashMap ℕ (Node V)
  shard_of s key = get_or s.shards (bini key) []

  abbrev pub view : Store V → ℕ → Option (Node V)
  view s key = HashMap.get key (shard_of s key)

  -- The store `s` with another value at `key`.
  pub record Changed (key : ℕ) (o : Option (Node V)) (s s' : Store V) : Type 0 where
    pub valid : IsValid s'
    pub here : view s' key ≡ o
    pub there : (j : ℕ) → key ≢ j → view s' j ≡ view s j

  pub shard-eq : (s : Store V) (key : ℕ) → IsValid s → shard (bini key) s ≡ ok (shard_of s key)
  unfolding shard
  shard-eq s key w =
      let e = get_elem?-eq-get_or s.shards (bini key) [] (ground (arith, w.sharded)) in
      rw (e, shard) refl

  pub shard-bind {ℓ} :
      {B : Type ℓ} (s : Store V) (key : ℕ)
      → IsValid s
      → (f : HashMap ℕ (Node V) → Run B) → (shard (bini key) s >>= f) ≡ f (shard_of s key)
  shard-bind s key w f = rw (shard-eq s key w) refl

  get-set :
      (shards : List (HashMap ℕ (Node V))) (i i' j : ℕ) (m : HashMap ℕ (Node V))
      → i < length shards
      → (i ≡ i' → HashMap.get j m ≡ HashMap.get j (get_or shards i []))
      → HashMap.get j (get_or (set shards i m) i' []) ≡ HashMap.get j (get_or shards i' [])
  get-set shards i i' j m lt same = elim (Bool-cases (nat_beq i i')) [
    | inl e ↦
        let q : i ≡ i' = ground arith in rw (sym q) (rw (get_or-set_self shards i m [] lt) (same q))
    | inr e ↦ rw (get_or-set_ne shards i i' m [] (λ q. absurd (ground arith))) refl
  ]

  pub set-Changed :
      (key : ℕ) (o : Option (Node V)) (m : HashMap ℕ (Node V)) (em : ExpirationMap) (s : Store V)
      → IsValid s
      → HashMap.get key m ≡ o
      → ((j : ℕ) → key ≢ j → HashMap.get j m ≡ HashMap.get j (shard_of s key))
      → Changed key o s (record s { shards = set s.shards (bini key) m; em = em })
  set-Changed key o m em s w new same = record {
    valid = record { sharded = ground (arith, w.sharded, length-set s.shards (bini key) m) };
    here = rw (get_or-set_self s.shards (bini key) m [] (ground (arith, w.sharded))) new;
    there =
        λ j h. get-set s.shards (bini key) (bini j) j m (ground (arith, w.sharded)) (λ _. same j h);
  }

  pub put-Changed :
      (key : ℕ) (node : Node V) (em : ExpirationMap) (s : Store V)
      → IsValid s
      → Changed key (some node) s (put key node (shard_of s key) em s)
  unfolding put
  put-Changed key node em s w =
      let m = shard_of s key in
      set-Changed key (some node) (HashMap.insert key node m) em s w
        (rw (HashMap.get-insert key key node m) (ground arith))
        (λ j h. rw (HashMap.get-insert key j node m) (ground arith))

  pub same-Changed : (key : ℕ) (s : Store V) → IsValid s → Changed key (view s key) s s
  same-Changed key s w = record { valid = w; here = refl; there = λ j h. refl }

  -- `get` reads the view.
  pub get-view :
      (elapsed key conflict : ℕ) (s : Store V)
      → IsValid s
      → get elapsed key conflict s
        ≡ ok (elim (view s key) [
          | none ↦ none
          | some v ↦
              if not (nat_beq conflict 0) && not (nat_beq conflict v.conflict)
              then none
              else if hidden elapsed v.expiration
              then none
              else v.value
        ])
  unfolding get
  get-view elapsed key conflict s w =
      shard-bind s key w _
      ∙ elim (Option-cases (view s key)) [ inl e ↦ rw e refl | inr (v, e) ↦ rw e (ground arith) ]
