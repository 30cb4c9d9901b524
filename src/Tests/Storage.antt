-- ===== src/Tests/Storage.antt =====
-- The expiration map, the store and the metrics at concrete inputs.
use memory_cache_rust.Prelude.{
  ℕ, ◌≡◌, ◌≢◌, [], ◌∷◌, none, some, ok, nat_eq, if◌then◌else◌, ◌==◌, arith,
}
use memory_cache_rust.Prelude.Int.{pos, int_eq}
use memory_cache_rust.Prelude.HashMap
use memory_cache_rust.Prelude.HashMap.{HashMap}
use memory_cache_rust.Store
use memory_cache_rust.Store.{Store, node_of, hidden, from}
use memory_cache_rust.Store.Refine.{
  set_node-Changed, update-Changed, del-Changed, admits, matches, taken,
}
use memory_cache_rust.Store.View.{Changed, view}
use memory_cache_rust.Tests.Data.{one, one-Stocked, view-one, node, item}
use memory_cache_rust.Ttl
use memory_cache_rust.Ttl.{ExpirationMap, Bucket}
use memory_cache_rust.Ttl.Inert.{table, grown, inert, get-add}

abbrev dated : ExpirationMap
dated = record { buckets = some ((pos 0, (7, 3) ∷ []) ∷ []) }

inert_example :
    (table (Ttl.del 7 0 dated) ≡ table dated)
    × (Ttl.cleanup 0 dated ≡ [])
    × (table dated ≢ [] → table (Ttl.update 7 3 0 0 dated) ≡ table dated)
inert_example = inert dated 7 3 0 0

get-add_example : HashMap.get (pos 0) (table (Ttl.add 8 4 1 dated)) ≡ (
    if Ttl.storage_bucket 1 == pos 0
    then some (grown 8 4 (HashMap.get (Ttl.storage_bucket 1) (table dated)))
    else HashMap.get (pos 0) (table dated))
get-add_example = get-add 8 4 1 dated (pos 0) (λ e. absurd (omega (arith, e)))

-- The key is there with the conflict hash 3: a node of another conflict hash is refused.
set_node-Changed_example :
    (s' : Store ℕ) × (Store.set_node (record node { conflict = 5 }) one ≡ ok s')
    × Changed 7
        (if admits 5 (view one 7) then some (record node { conflict = 5 }) else view one 7)
        one
        s'
set_node-Changed_example =
    set_node-Changed (record node { conflict = 5 }) one one-Stocked.valid
      (rw view-one (λ d e. absurd (ground arith)))

update-Changed_example :
    (s' : Store ℕ) × (Store.update (item 41) one ≡ ok (matches 3 (view one 7), s'))
    × Changed 7 (if matches 3 (view one 7) then some (node_of (item 41)) else view one 7) one s'
update-Changed_example =
    update-Changed (item 41) one one-Stocked.valid (rw view-one (λ d e. absurd (ground arith)))

del-Changed_example :
    (s' : Store ℕ) × (Store.del 7 3 one
      ≡ ok (if matches 3 (view one 7) then taken (view one 7) else none, s'))
    × Changed 7 (if matches 3 (view one 7) then none else view one 7) one s'
del-Changed_example = del-Changed 7 3 one one-Stocked.valid (one-Stocked.valued 7)
