-- ===== src/Tests/Calls.antt =====
-- A cache, its handles, and histories of calls at concrete inputs.
use memory_cache_rust.Prelude.{
  ℕ, ◌≡◌, inl, refl, [], ◌∷◌, none, some, ok, panic, timeout, ◌>>=◌, arith,
}
use memory_cache_rust.Prelude.Int.{pos}
use memory_cache_rust.Cache.{Cache}
use memory_cache_rust.Cache.Owner.{Handle, Boxes, clone, drop}
use memory_cache_rust.Cache.Owner.Freed.{IsOwned, IsFreed, emptied, drop-Freed, drop-clone}
use memory_cache_rust.Cache.Process.{process_items}
use memory_cache_rust.Cache.Process.Refused.{process_items-Refused}
use memory_cache_rust.Tests.Data.{node, item, in_order, policy}

abbrev boxes : Boxes ℕ ℕ ℕ
boxes = record { stores = []; policies = some 5 ∷ []; rings = some 6 ∷ some 7 ∷ [] }

abbrev handle : Handle
handle = record {
  store = record { held = none };
  policy = record { held = some 0 };
  get_buf = record { held = some 1 };
}

handle-IsOwned : IsOwned handle boxes
handle-IsOwned = record { store = tt; policy = (5, refl); get_buf = (7, refl) }

drop-Freed_example :
    (b' : Boxes ℕ ℕ ℕ) × (drop handle boxes ≡ ok (emptied, b'))
    × IsFreed none boxes.stores b'.stores
    × IsFreed (some 0) boxes.policies b'.policies
    × IsFreed (some 1) boxes.rings b'.rings
    × (drop emptied b' ≡ ok (emptied, b'))
drop-Freed_example = drop-Freed handle boxes handle-IsOwned

drop-clone_example : (drop handle boxes >>= λ r. drop (clone handle) r.1) ≡ panic
drop-clone_example = drop-clone handle boxes 0 handle-IsOwned refl

abbrev small : Cache ℕ
small = record {
  store = none;
  policy = policy [] (pos 0) (pos 0);
  get_buf = record { buffer = none; capa = 64 };
  metrics = none;
}

process_items-Refused_example : process_items in_order 3 1000 node (item 40) small ≡ timeout
process_items-Refused_example =
    process_items-Refused in_order 3 1000 node (item 40) small refl (inl (ground arith))
