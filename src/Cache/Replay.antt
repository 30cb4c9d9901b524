-- ===== src/Cache/Replay.antt =====
-- The abstract map of a history of calls on one cache of src/cache.rs: what has been written at each key and not deleted since.
pub mod Chosen
pub mod Spared
pub mod Exact
pub mod Along
pub mod Roomy
pub mod Lossless
pub mod Decided
pub mod Whole
use memory_cache_rust.Prelude.{ℕ, ◌≡◌, List, [], ◌∷◌, Option, none, some, nat_beq, if◌then◌else◌}
use memory_cache_rust.Prelude.Int.{ℤ}
use memory_cache_rust.Cache.History.{Call, get_call, set_call, del_call, clean_call}
use memory_cache_rust.Cache.Expiry.{expiry}
use memory_cache_rust.Cache.Writes.{item_of}
use memory_cache_rust.Item.{Node}
use memory_cache_rust.Store.{node_of}

module _ {V : Type 0} where
  -- A call of an integer key, whose conflict hash is 0.
  abbrev pub IsInteger : Call V → Type 0
  IsInteger (get_call elapsed key conflict) = conflict ≡ 0
  IsInteger (set_call clock key conflict value cost ttl) = conflict ≡ 0
  IsInteger (del_call key conflict) = conflict ≡ 0
  IsInteger (clean_call now) = Unit

  -- The map with the node of a write at its key.
  abbrev pub written : ℕ → ℕ → V → ℤ → ℕ → (ℕ → Option (Node V)) → ℕ → Option (Node V)
  written key conflict value cost expiration m j =
      if nat_beq key j then some (node_of (item_of key conflict value cost expiration)) else m j

  -- A call on a map without bounds.
  abbrev pub replay : Call V → (ℕ → Option (Node V)) → ℕ → Option (Node V)
  replay (get_call elapsed key conflict) m j = m j
  replay (set_call clock key conflict value cost ttl) m j =
      written key conflict value cost (expiry clock ttl) m j
  replay (del_call key conflict) m j = if nat_beq key j then none else m j
  replay (clean_call now) m j = m j

  abbrev pub replay_all : List (Call V) → (ℕ → Option (Node V)) → ℕ → Option (Node V)
  replay_all [] m = m
  replay_all (call ∷ calls) m = replay_all calls (replay call m)
