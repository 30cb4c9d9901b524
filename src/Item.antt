-- ===== src/Item.antt =====
-- `Item` of src/cache.rs and `Node` of src/store.rs. A value is behind an atomic pointer, `none` if
-- null; the pointers are only copied, never written through. A duration is its nanoseconds.
use memory_cache_rust.Prelude.{ℕ, Option, ◌/◌}
use memory_cache_rust.Prelude.Int.{ℤ}

pub data ItemFlag : Type 0 where
  item_new item_delete item_update : ItemFlag

pub record Item (V : Type 0) : Type 0 where
  pub flag : ItemFlag
  pub key : ℕ
  pub conflict : ℕ
  pub value : Option V
  pub cost : ℤ
  pub expiration : Option ℕ

pub record Node (V : Type 0) : Type 0 where
  pub key : ℕ
  pub conflict : ℕ
  pub value : Option V
  pub expiration : Option ℕ

-- `Node::new`, and `Clone` of a node, which loads the pointer into a new one.
unfoldable pub node_new : {V : Type 0} → ℕ → ℕ → Option V → Option ℕ → Node V
node_new key conflict value expiration = record {
  key = key;
  conflict = conflict;
  value = value;
  expiration = expiration;
}

unfoldable pub node_clone : {V : Type 0} → Node V → Node V
node_clone n = record {
  key = n.key;
  conflict = n.conflict;
  value = n.value;
  expiration = n.expiration;
}

-- `Duration::as_millis`.
abbrev pub as_millis : ℕ → ℕ
as_millis t = t / 1_000_000
