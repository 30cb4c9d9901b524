-- ===== src/Store.antt =====
-- src/store.rs: the sharded map of the cached nodes. The lock has no model: an operation is one step.
pub mod View
pub mod Refine
pub mod Reads
use memory_cache_rust.Prelude.{
  ℕ, zero, suc, timeout, ◌%◌, Bool, true, false, not, ◌&&◌, List, [], ◌∷◌, Option, none, some, ltb,
  nat_beq, if◌then◌else◌, nat_eq, Run, ok, panic, ◌>>=◌, length, replicate, set, get_elem?, ◌++◌,
}
use memory_cache_rust.Prelude.HashMap
use memory_cache_rust.Prelude.HashMap.{HashMap}
use memory_cache_rust.Item.{Item, Node, as_millis}
use memory_cache_rust.Policy
use memory_cache_rust.Policy.{DefaultPolicy}
use memory_cache_rust.Ttl
use memory_cache_rust.Ttl.{ExpirationMap}

abbrev pub num_shards : ℕ
num_shards = 256

pub record Store (V : Type 0) : Type 0 where
  pub shards : List (HashMap ℕ (Node V))
  pub em : ExpirationMap

abbrev pub bini : ℕ → ℕ
bini hash = hash % num_shards

-- The conflict test of `set`, `update` and `del`: another key with the same hash.
abbrev pub clashes : ℕ → ℕ → Bool
clashes old conflict = not (nat_beq old conflict) && not (nat_beq conflict 0)

-- `Option::unwrap`.
abbrev pub unwrap {ℓ} : {A : Type ℓ} → Option A → Run A
unwrap none = panic
unwrap (some a) = ok a

-- The test of `get` on a node: `true` if it is reported as missing.
unfoldable pub hidden : ℕ → Option ℕ → Bool
hidden elapsed none = false
hidden elapsed (some t) = ltb (as_millis elapsed) (as_millis t)

-- `self.data[index]`, which panics out of range.
unfoldable pub shard : {V : Type 0} → ℕ → Store V → Run (HashMap ℕ (Node V))
shard index s = elim (get_elem? s.shards index) [ none ↦ panic | some m ↦ ok m ]

module _ {V : Type 0} where
  unfoldable pub from : List (HashMap ℕ (Node V)) → Store V
  from shards = record { shards = shards ++ replicate num_shards []; em = Ttl.new }

  unfoldable pub new : Store V
  unfolding from
  new = from []

  -- `Deref` is not written, and `DerefMut` calls itself: `depth` bounds the stack.
  unfoldable pub deref : Store V → Run (Unit {0})
  deref s = panic

  unfoldable pub deref_mut : ℕ → Store V → Run (Unit {0})
  deref_mut zero s = timeout
  deref_mut (suc depth) s = deref_mut depth s

  unfoldable pub clear : Store V → Store V
  clear s = record s { shards = replicate num_shards [] }

  unfoldable pub is_empty : Store V → Bool
  is_empty s = nat_beq (length s.shards) 0

  unfoldable pub expiration : ℕ → Store V → Run (Option ℕ)
  expiration key s = shard (bini key) s >>= λ m.
      ok (elim (HashMap.get key m) [ none ↦ none | some v ↦ v.expiration ])

  -- `elapsed` is the time between the two readings of the clock in `get`.
  unfoldable pub get : ℕ → ℕ → ℕ → Store V → Run (Option V)
  unfolding hidden
  get elapsed key_hash conflict_hash s = shard (bini key_hash) s >>= λ m.
      elim (HashMap.get key_hash m) [
        | none ↦ ok none
        | some v ↦
            if not (nat_beq conflict_hash 0) && not (nat_beq conflict_hash v.conflict)
            then ok none
            else if hidden elapsed v.expiration
            then ok none
            else ok v.value
      ]

  -- `self.data[index].insert(key, node)`, after the changes to the expirations.
  unfoldable pub put : ℕ → Node V → HashMap ℕ (Node V) → ExpirationMap → Store V → Store V
  put key node m em s = record s {
    shards = set s.shards (bini key) (HashMap.insert key node m);
    em = em;
  }

  unfoldable pub set_node : Node V → Store V → Run (Store V)
  unfolding put
  set_node item s = shard (bini item.key) s >>= λ m. elim (HashMap.get item.key m) [
    | none ↦
        let em : ExpirationMap = elim item.expiration [
          | none ↦ s.em
          | some t ↦ Ttl.add item.key item.conflict t s.em
        ] in
        ok (put item.key item m em s)
    | some v ↦ if clashes v.conflict item.conflict then ok s else elim v.expiration [
      | none ↦ ok (put item.key item m s.em s)
      | some old ↦ unwrap item.expiration >>= λ t.
          ok (put item.key item m (Ttl.update item.key item.conflict old t s.em) s)
    ]
  ]

  abbrev pub node_of : Item V → Node V
  node_of item = record {
    key = item.key;
    conflict = item.conflict;
    value = item.value;
    expiration = item.expiration;
  }

  unfoldable pub update : Item V → Store V → Run (Bool × Store V)
  unfolding put
  update item s = shard (bini item.key) s >>= λ m. elim (HashMap.get item.key m) [
    | none ↦ ok (false, s)
    | some v ↦ if clashes v.conflict item.conflict then ok (false, s) else elim v.expiration [
      | none ↦ ok (true, put item.key (node_of item) m s.em s)
      | some old ↦ unwrap item.expiration >>= λ t.
          ok (true, put item.key (node_of item) m (Ttl.update item.key item.conflict old t s.em) s)
    ]
  ]

  -- A null value fails the assertion.
  unfoldable pub del : ℕ → ℕ → Store V → Run (Option (ℕ × V) × Store V)
  del key_hash conflict s = shard (bini key_hash) s >>= λ m. elim (HashMap.get key_hash m) [
    | none ↦ ok (none, s)
    | some v ↦
        if clashes v.conflict conflict
        then ok (none, s)
        else (let em : ExpirationMap = elim v.expiration [
          | none ↦ s.em
          | some t ↦ Ttl.del v.key t s.em
        ] in
            unwrap v.value >>= λ value. ok (
              some (v.conflict, value),
              record s {
                shards = set s.shards (bini key_hash) (HashMap.remove key_hash m);
                em = em;
              },
            ))
  ]

  -- The loop of `clean_up` over the items that are due.
  unfoldable pub clean_items :
      List (ℕ × ℕ) → Store V → DefaultPolicy → Run (Store V × DefaultPolicy)
  clean_items [] s p = ok (s, p)
  clean_items ((key, conflict) ∷ rest) s p = expiration key s >>= λ found. elim found [
    | none ↦ clean_items rest s p
    | some _ ↦ del key conflict s >>= λ r. clean_items rest r.1 (Policy.del key p)
  ]

  -- `items` is the order in which the map of due items is iterated.
  unfoldable pub clean_up :
      (HashMap ℕ ℕ → List (ℕ × ℕ)) → ℕ → Store V → DefaultPolicy → Run (Store V × DefaultPolicy)
  unfolding clean_items
  clean_up items now s p = clean_items (items (Ttl.cleanup now s.em)) s p
