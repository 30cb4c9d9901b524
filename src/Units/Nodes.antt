-- ===== src/Units/Nodes.antt =====
-- The tests of `Store` in src/store.rs. The keys are the integers that the loops count, and `elapsed` is the time
-- between the two readings of the clock in `get`.
use memory_cache_rust.Prelude.{
  ℕ, zero, suc, ◌+◌, Bool, true, false, not, Option, none, some, Run, ok, ◌>>=◌, nat_beq, nat_eq,
  get_elem?, set,
}
use memory_cache_rust.Prelude.Int.{pos}
use memory_cache_rust.Prelude.HashMap
use memory_cache_rust.Hash.{Hashers, i32_key, key_to_hash}
use memory_cache_rust.Item.{Item, Node, node_new, item_new}
use memory_cache_rust.Store
use memory_cache_rust.Store.{Store, unwrap}
use memory_cache_rust.Units.{assert}

-- `assert_eq!` on an optional value.
abbrev is_value : Option ℕ → Option ℕ → Bool
is_value none none = true
is_value none (some b) = false
is_value (some a) none = false
is_value (some a) (some b) = nat_beq a b

module _ {O : Type 0} (hs : Hashers O) (elapsed : ℕ) where
  abbrev hashes : ℕ → ℕ × ℕ
  hashes i = key_to_hash hs (i32_key (pos i))

  abbrev node_at : ℕ → Node ℕ
  node_at i = node_new (hashes i).0 (hashes i).1 (some (i + 2)) none

  -- The bodies of the loops, at `i` with `left` rounds to go.
  unfoldable pub set_get_rounds : ℕ → ℕ → Store ℕ → Run (Store ℕ)
  set_get_rounds zero i s = ok s
  set_get_rounds (suc left) i s = do
    s' ← Store.set_node (node_at i) s
    v ← Store.get elapsed (hashes i).0 (hashes i).1 s'
    a ← assert (is_value v (some (i + 2)))
    set_get_rounds left (i + 1) s'

  unfoldable pub test_set_get : Run (Unit {0})
  unfolding set_get_rounds
  test_set_get = do s ← set_get_rounds 20 0 Store.new; ok tt

  unfoldable pub set_del_rounds : ℕ → ℕ → Store ℕ → Run (Unit {0})
  set_del_rounds zero i s = ok tt
  set_del_rounds (suc left) i s = do
    s' ← Store.set_node (node_at i) s
    d ← Store.del (hashes i).0 (hashes i).1 s'
    taken ← unwrap d.0
    a ← assert (nat_beq taken.1 (i + 2))
    v ← Store.get elapsed (hashes i).0 (hashes i).1 d.1
    b ← assert (is_value v none)
    set_del_rounds left (i + 1) d.1

  unfoldable pub test_set_del : Run (Unit {0})
  unfolding set_del_rounds
  test_set_del = set_del_rounds 20 0 Store.new

  unfoldable pub set_rounds : ℕ → ℕ → Store ℕ → Run (Store ℕ)
  set_rounds zero i s = ok s
  set_rounds (suc left) i s = do s' ← Store.set_node (node_at i) s; set_rounds left (i + 1) s'

  unfoldable pub none_rounds : ℕ → ℕ → Store ℕ → Run (Unit {0})
  none_rounds zero i s = ok tt
  none_rounds (suc left) i s = do
    v ← Store.get elapsed (hashes i).0 (hashes i).1 s
    a ← assert (is_value v none)
    none_rounds left (i + 1) s

  unfoldable pub test_set_clear : Run (Unit {0})
  unfolding set_rounds none_rounds
  test_set_clear = do s ← set_rounds 20 0 Store.new; none_rounds 20 0 (Store.clear s)

  unfoldable pub update_rounds : ℕ → ℕ → Store ℕ → Run (Unit {0})
  update_rounds zero i s = ok tt
  update_rounds (suc left) i s = do
    let item : Item ℕ = record {
      flag = item_new;
      key = (hashes i).0;
      conflict = (hashes i).1;
      value = some (i + 4);
      cost = pos 0;
      expiration = none;
    }
    r ← Store.update item s
    v ← Store.get elapsed (hashes i).0 (hashes i).1 r.1
    a ← assert (is_value v (some (i + 4)))
    update_rounds left (i + 1) r.1

  unfoldable pub test_set_update : Run (Unit {0})
  unfolding set_get_rounds update_rounds
  test_set_update = do s ← set_get_rounds 20 0 Store.new; update_rounds 20 0 s

-- The first node is written to its shard past the store.
unfoldable pub test_set_collision : ℕ → Run (Unit {0})
test_set_collision elapsed = do
  let s : Store ℕ = Store.new
  m ← unwrap (get_elem? s.shards 1)
  let s₁ : Store ℕ = record s {
    shards = set s.shards 1 (HashMap.insert 1 (node_new 1 0 (some 1) none) m);
  }
  v₁ ← Store.get elapsed 1 1 s₁
  a₁ ← assert (is_value v₁ none)
  s₂ ← Store.set_node (node_new 1 1 (some 2) none) s₁
  v₂ ← Store.get elapsed 1 0 s₂
  a₂ ← assert (not (is_value v₂ (some 2)))
  let item : Item ℕ = record {
    flag = item_new;
    key = 1;
    conflict = 1;
    value = some 2;
    cost = pos 0;
    expiration = none;
  }
  r ← Store.update item s₂
  a₃ ← assert (not r.0)
  d ← Store.del 1 1 r.1
  v₃ ← Store.get elapsed 1 0 d.1
  assert (is_value v₃ (some 1))
