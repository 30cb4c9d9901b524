-- ===== src/SampledLfu/Costs.antt =====
-- `used` of `SampledLFU` in src/policy.rs against the costs in the map.
use native.Mathlib.Decide.{ℕ_discrete}
use memory_cache_rust.Prelude.{
  ℕ, ◌<◌, ◌≡◌, refl, [], ◌∷◌, none, some, nat_eq, nat_beq, if◌then◌else◌, ok, arith, Option-cases,
  inl, inr, is_some, ◌&&◌,
}
use memory_cache_rust.Prelude.Int.{
  ℤ, pos, ◌+ℤ◌, ◌-ℤ◌, wrap_i64, +ℤ_parts, -ℤ_parts, eq_of_parts, wrap_i64-add, wrap_i64-sub,
  wrap_i64-add_right, as_u64,
}
use memory_cache_rust.Prelude.HashMap.{
  HashMap, get, insert, remove, IsMap, insert-IsMap, remove-IsMap, remove_absent, get-insert,
}
use memory_cache_rust.Metrics
use memory_cache_rust.SampledLfu.{SampledLfu, del, add, note, note_change, update_if_has, clear}

-- The sum of all costs, as an integer.
unfoldable pub total : HashMap ℕ ℤ → ℤ
total [] = pos 0
total ((k, v) ∷ m) = total m +ℤ v

pub total-insert_new :
    (k : ℕ) (v : ℤ) (m : HashMap ℕ ℤ) → get k m ≡ none → total (insert k v m) ≡ total m +ℤ v
unfolding total insert get
total-insert_new k v [] h = refl
total-insert_new k v ((j, w) ∷ m) h = elim (ℕ_discrete j k) [
  | yes e ↦ ground arith
  | no d ↦ ground (
    arith,
    total-insert_new k v m,
    eq_of_parts (total m +ℤ v +ℤ w) (total m +ℤ w +ℤ v),
    +ℤ_parts (total m +ℤ v) w,
    +ℤ_parts (total m +ℤ w) v,
    +ℤ_parts (total m) w,
    +ℤ_parts (total m) v,
  )
]

pub total-insert_old :
    (k : ℕ) (v w : ℤ) (m : HashMap ℕ ℤ)
    → get k m ≡ some w
    → total (insert k v m) ≡ total m +ℤ (v -ℤ w)
unfolding total insert get
total-insert_old k v w [] h = ground arith
total-insert_old k v w ((j, u) ∷ m) h = ground (
  arith,
  total-insert_old k v w m,
  eq_of_parts (total m +ℤ v) (total m +ℤ w +ℤ (v -ℤ w)),
  eq_of_parts (total m +ℤ (v -ℤ w) +ℤ u) (total m +ℤ u +ℤ (v -ℤ w)),
  +ℤ_parts (total m) v,
  +ℤ_parts (total m) w,
  +ℤ_parts (total m) u,
  +ℤ_parts (total m +ℤ w) (v -ℤ w),
  +ℤ_parts (total m +ℤ u) (v -ℤ w),
  +ℤ_parts (total m) (v -ℤ w),
  +ℤ_parts (total m +ℤ (v -ℤ w)) u,
  -ℤ_parts v w,
)

pub total-remove :
    (k : ℕ) (w : ℤ) (m : HashMap ℕ ℤ)
    → IsMap m
    → get k m ≡ some w
    → total (remove k m) ≡ total m -ℤ w
unfolding total remove get
total-remove k w [] d h = ground arith
total-remove k w ((j, u) ∷ m) d h = ground (
  arith,
  total-remove k w m,
  remove_absent k m,
  eq_of_parts (total m) (total m +ℤ w -ℤ w),
  eq_of_parts (total m -ℤ w +ℤ u) (total m +ℤ u -ℤ w),
  +ℤ_parts (total m) w,
  +ℤ_parts (total m) u,
  -ℤ_parts (total m +ℤ w) w,
  -ℤ_parts (total m) w,
  -ℤ_parts (total m +ℤ u) w,
  +ℤ_parts (total m -ℤ w) u,
)

-- The map has each key once, and `used` is the sum of the costs, wrapped to 64 bits.
pub record IsValid (s : SampledLfu) : Type 0 where
  pub distinct : IsMap s.key_costs
  pub summed : s.used ≡ wrap_i64 (total s.key_costs)

-- `new` and `clear` give a valid state.
pub clear-IsValid : (s : SampledLfu) → IsValid (clear s)
unfolding clear total wrap_i64
clear-IsValid s = record { distinct = tt; summed = refl }

-- A deletion of any key keeps `used` the wrapped sum of the costs, with each key once.
pub del-IsValid : (key : ℕ) (s : SampledLfu) → IsValid s → IsValid (del key s)
unfolding del
del-IsValid key s v = elim (Option-cases (get key s.key_costs)) [
  | inl absent ↦ rw (absent, del) v
  | inr (w, found) ↦
      rw (found, del)
        (record {
          distinct = remove-IsMap key s.key_costs v.distinct;
          summed =
              rw (v.summed, wrap_i64-sub, total-remove key w s.key_costs v.distinct found) refl;
        })
]

-- An addition of a key that is not in the map keeps the sum right.
pub add-IsValid :
    (key : ℕ) (cost : ℤ) (s : SampledLfu)
    → IsValid s
    → get key s.key_costs ≡ none
    → IsValid (add key cost s)
unfolding add
add-IsValid key cost s v absent = record {
  distinct = insert-IsMap key cost s.key_costs v.distinct;
  summed = rw (v.summed, wrap_i64-add, total-insert_new key cost s.key_costs absent) refl;
}

abbrev changed : ℕ → ℤ → ℤ → SampledLfu → SampledLfu
changed key v cost s = record s {
  used = wrap_i64 (s.used +ℤ wrap_i64 (cost -ℤ v));
  key_costs = insert key cost s.key_costs;
}

note-same :
    (kind key delta : ℕ) (s : SampledLfu)
    → kind < Metrics.do_not_use
    → Metrics.IsUnused s.metrics
    → note kind key delta s ≡ ok s
unfolding note
note-same kind key delta s h (inl e) = ground arith
note-same kind key delta s h (inr e) = ground (arith, Metrics.add-get-new kind key delta h)

-- From a state where `used` is the wrapped sum of the costs and no metrics have counted, an update
-- of a key returns and keeps the sum right; it reports whether the key is there, and then replaces
-- its cost and no other; the state for a key that is not there stays as it is, as do the capacity
-- and the metrics.
pub update_if_has_lem :
    (key : ℕ) (cost : ℤ) (s : SampledLfu)
    → IsValid s
    → Metrics.IsUnused s.metrics
    → (s' : SampledLfu) × (update_if_has key cost s ≡ ok (is_some (get key s.key_costs), s'))
      × IsValid s'
      × ((k : ℕ)
          → get k s'.key_costs ≡ (
              if is_some (get key s.key_costs) && nat_beq key k
              then some cost
              else get k s.key_costs))
      × (get key s.key_costs ≡ none → s' ≡ s)
      × (s'.max_cost ≡ s.max_cost)
      × (s'.metrics ≡ s.metrics)
unfolding update_if_has note_change
update_if_has_lem key cost s v unused = elim (Option-cases (get key s.key_costs)) [
  | inl absent ↦ (s, rw (absent, update_if_has) refl, v, λ k. rw absent refl, λ e. refl, refl, refl)
  | inr (w, found) ↦
      let s' = changed key w cost s in
      (
        s',
        rw (found, update_if_has)
            (ground (
              arith,
              note-same Metrics.key_update key 1 s,
              note-same Metrics.cost_add key (as_u64 (wrap_i64 (wrap_i64 (w -ℤ cost) -ℤ pos 1))) s,
              note-same Metrics.cost_add key (as_u64 (wrap_i64 (w -ℤ cost))) s,
            )),
        record {
          distinct = insert-IsMap key cost s.key_costs v.distinct;
          summed =
              rw
                (
                  v.summed,
                  wrap_i64-add_right,
                  wrap_i64-add,
                  total-insert_old key cost w s.key_costs found,
                )
                refl;
        },
        λ k. rw found (get-insert key k cost s.key_costs),
        λ e. ground arith,
        refl,
        refl,
      )
]
