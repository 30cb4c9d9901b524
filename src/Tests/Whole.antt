-- ===== src/Tests/Whole.antt =====
-- The ring buffer and the cache at concrete inputs.
use memory_cache_rust.Prelude.{
  ℕ, ◌≡◌, refl, true, ◌&&◌, [], ◌∷◌, none, some, ok, nat_eq, nat_beq, if◌then◌else◌, inl,
}
use memory_cache_rust.Prelude.Int.{pos, wrap_i64, ◌+ℤ◌, ◌-ℤ◌}
use memory_cache_rust.Prelude.HashMap
use memory_cache_rust.Cache
use memory_cache_rust.Cache.{Cache, evict_victims, set_with_ttl}
use memory_cache_rust.Cache.Evict.{Stocked, listed, new-Stocked}
use memory_cache_rust.Cache.Writes.{store_of, item_of}
use memory_cache_rust.Cache.Writes.Written.{set_with_ttl_new, set_with_ttl_known}
use memory_cache_rust.Policy
use memory_cache_rust.Policy.{DefaultPolicy}
use memory_cache_rust.Ring
use memory_cache_rust.Ring.{RingStripe, IsZeroed, refilled, pushes, pushes-new}
use memory_cache_rust.SampledLfu
use memory_cache_rust.Store.{Store, node_of}
use memory_cache_rust.Store.Reads.{view-new}
use memory_cache_rust.Store.Refine.{admits}
use memory_cache_rust.Store.View.{view, Changed}
use memory_cache_rust.Tests.Data.{policy, in_order, one, one-Stocked, view-one}

abbrev idle : DefaultPolicy
idle = policy [] (pos 0) (pos 9)

abbrev busy : DefaultPolicy
busy = policy ((7, pos 1) ∷ []) (pos 1) (pos 9)

abbrev stripe : RingStripe
stripe = record { buffer = none; capa = 64 }

abbrev cache : DefaultPolicy → Store ℕ → Cache ℕ
cache p s = record { store = some s; policy = p; get_buf = stripe; metrics = none }

abbrev empty_cache : Cache ℕ
empty_cache = record { store = none; policy = idle; get_buf = stripe; metrics = none }

pushes-new_example :
    (r' : RingStripe) × (pushes (3 ∷ 4 ∷ 3 ∷ []) (Ring.new 64) idle ≡ ok (r', idle))
    × IsZeroed r'
    × (r'.capa ≡ 64)
pushes-new_example = pushes-new (3 ∷ 4 ∷ 3 ∷ []) 64 idle

recost_run : Policy.update 7 (pos 4) busy ≡ ok (policy ((7, pos 4) ∷ []) (pos 4) (pos 9))
unfolding Policy.update SampledLfu.update_if_has SampledLfu.note_change SampledLfu.note HashMap.get
    HashMap.insert wrap_i64 ◌+ℤ◌ ◌-ℤ◌
recost_run = refl

set_with_ttl_known_example :
    (s' : Store ℕ) × (set_with_ttl in_order 3 (some 5) 7 3 41 (pos 4) 8 (cache busy one)
      ≡ ok (
        true,
        record (cache busy one) {
          store = some s';
          policy = policy ((7, pos 4) ∷ []) (pos 4) (pos 9);
        },
      ))
    × Stocked s'
    × Changed 7 (some (node_of (item_of 7 3 41 (pos 4) 13))) one s'
set_with_ttl_known_example =
    set_with_ttl_known in_order 3 (some 5) 7 3 41 (pos 4) 8 (cache busy one)
      (policy ((7, pos 4) ∷ []) (pos 4) (pos 9)) refl one-Stocked (rw view-one refl) recost_run

added_run : Policy.add {V = ℕ} in_order 3 7 (pos 1) idle ≡ ok (busy, [], true)
unfolding Policy.add Policy.admit_new SampledLfu.room_left SampledLfu.add SampledLfu.update_if_has
    HashMap.get HashMap.insert wrap_i64 ◌+ℤ◌ ◌-ℤ◌
added_run = refl

-- A time to live below a millisecond.
set_with_ttl_new_example :
    (s' : Store ℕ) × (set_with_ttl in_order 3 (some 2_000_000) 7 3 40 (pos 1) 999_999 empty_cache
      ≡ ok (true, record empty_cache { store = some s'; policy = busy }))
    × Stocked s'
    × ((j : ℕ)
        → view s' j ≡ (
            if listed {V = ℕ} j []
            then none
            else if true && admits 3 (view (store_of empty_cache) 7) && nat_beq 7 j
            then some (node_of (item_of 7 3 40 (pos 1) 2_999_999))
            else view (store_of empty_cache) j))
unfolding Cache.init_store
set_with_ttl_new_example =
    set_with_ttl_new in_order 3 (some 2_000_000) 7 3 40 (pos 1) 999_999 empty_cache busy [] true
      refl new-Stocked (inl refl) (rw view-new refl) added_run
