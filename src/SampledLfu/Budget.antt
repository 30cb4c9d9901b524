-- ===== src/SampledLfu/Budget.antt =====
-- The room that `SampledLFU` of src/policy.rs computes, while the costs stay within the budget.
use memory_cache_rust.Prelude.{
  ℕ, ◌≤◌, ◌<◌, ◌^◌, ◌≡◌, refl, sym, ◌∙◌, [], ◌∷◌, none, some, nat_eq, arith, All, Option-cases, inl,
  inr,
}
use memory_cache_rust.Prelude.Int.{
  ℤ, pos_part, neg_part, ◌+ℤ◌, ◌-ℤ◌, ◌≤ℤ◌, wrap_i64, wrap_i64-eq, -ℤ_parts,
}
use memory_cache_rust.Prelude.HashMap.{HashMap, get, insert, remove, remove_absent}
use memory_cache_rust.SampledLfu.{SampledLfu, room_left, del, add}
use memory_cache_rust.SampledLfu.Costs.{
  total, IsValid, total-insert_new, total-remove, del-IsValid, add-IsValid,
}

abbrev pub IsCost : ℕ × ℤ → Type 0
IsCost e = neg_part e.1 ≡ 0

-- A valid state of costs that are not negative and fit the capacity, below 2^62.
pub record Budget (s : SampledLfu) : Type 0 where
  pub valid : IsValid s
  pub costs : All IsCost s.key_costs
  pub bounded : total s.key_costs ≤ℤ s.max_cost
  pub small : pos_part s.max_cost < 2 ^ 62

pub total_nonneg : (m : HashMap ℕ ℤ) → All IsCost m → neg_part (total m) ≡ 0
unfolding total ◌+ℤ◌
total_nonneg [] a = refl
total_nonneg ((k, v) ∷ m) (p, ps) = ground (arith, total_nonneg m ps)

pub remove-IsCost : (k : ℕ) (m : HashMap ℕ ℤ) → All IsCost m → All IsCost (remove k m)
unfolding remove
remove-IsCost k [] a = tt
remove-IsCost k ((j, v) ∷ m) (p, ps) = ground (arith, remove-IsCost k m ps)

insert-IsCost :
    (k : ℕ) (v : ℤ) (m : HashMap ℕ ℤ) → neg_part v ≡ 0 → All IsCost m → All IsCost (insert k v m)
unfolding insert
insert-IsCost k v [] h a = (h, tt)
insert-IsCost k v ((j, w) ∷ m) h (p, ps) = ground (arith, insert-IsCost k v m h ps)

pub get-IsCost :
    (k : ℕ) (v : ℤ) (m : HashMap ℕ ℤ) → All IsCost m → get k m ≡ some v → neg_part v ≡ 0
unfolding get
get-IsCost k v [] a h = ground arith
get-IsCost k v ((j, w) ∷ m) (p, ps) h = ground (arith, get-IsCost k v m ps)

-- Within the budget no operation overflows: the room is the capacity less the costs.
pub room_left-eq :
    (cost : ℤ) (s : SampledLfu)
    → Budget s
    → neg_part cost ≡ 0
    → cost ≤ℤ s.max_cost
    → room_left cost s ≡ s.max_cost -ℤ (total s.key_costs +ℤ cost)
unfolding room_left
room_left-eq cost s b h le =
    let t = total s.key_costs in
    let n = total_nonneg s.key_costs b.costs in
    let used : s.used ≡ t =
      b.valid.summed ∙ wrap_i64-eq t (omega (arith, b.bounded, b.small), omega arith) in
    let sum : wrap_i64 (t +ℤ cost) ≡ t +ℤ cost =
      wrap_i64-eq (t +ℤ cost) (small_sum t cost s.max_cost n h b.bounded le b.small) in
    rw (used, sum)
      (wrap_i64-eq (s.max_cost -ℤ (t +ℤ cost))
        (small_room t cost s.max_cost n h b.bounded le b.small))
  where
    small_sum :
        (t c m : ℤ)
        → neg_part t ≡ 0
        → neg_part c ≡ 0
        → t ≤ℤ m
        → c ≤ℤ m
        → pos_part m < 2 ^ 62
        → (pos_part (t +ℤ c) < 2 ^ 63) × (neg_part (t +ℤ c) ≤ 2 ^ 63)
    small_sum t c m p q r u w = unfold ◌+ℤ◌ in ground arith

    small_room :
        (t c m : ℤ)
        → neg_part t ≡ 0
        → neg_part c ≡ 0
        → t ≤ℤ m
        → c ≤ℤ m
        → pos_part m < 2 ^ 62
        → (pos_part (m -ℤ (t +ℤ c)) < 2 ^ 63) × (neg_part (m -ℤ (t +ℤ c)) ≤ 2 ^ 63)
    small_room t c m p q r u w = unfold ◌+ℤ◌ ◌-ℤ◌ in ground arith

pub del_absent : (key : ℕ) (s : SampledLfu) → get key s.key_costs ≡ none → del key s ≡ s
unfolding del
del_absent key s h = rw (h, del) refl

-- What a deletion does: it takes the key and its cost away, and keeps the budget.
pub record Deleted (key : ℕ) (s s' : SampledLfu) : Type 0 where
  pub budget : Budget s'
  pub less : total s'.key_costs ≤ℤ total s.key_costs
  pub costs_eq : s'.key_costs ≡ remove key s.key_costs
  pub max_eq : s'.max_cost ≡ s.max_cost

pub del-Deleted : (key : ℕ) (s : SampledLfu) → Budget s → Deleted key s (del key s)
unfolding del
del-Deleted key s b = elim (Option-cases (get key s.key_costs)) [
  | inl absent ↦
      rw (absent, del)
        (record {
          budget = b;
          less = omega arith;
          costs_eq = sym (remove_absent key s.key_costs absent);
          max_eq = refl;
        })
  | inr (w, found) ↦
      let shorter = total-remove key w s.key_costs b.valid.distinct found in
      let fewer : total (remove key s.key_costs) ≤ℤ total s.key_costs = rw shorter (
        omega
          (arith, -ℤ_parts (total s.key_costs) w, get-IsCost key w s.key_costs b.costs found)) in
      let v = del-IsValid key s b.valid in
      rw (found, del)
        (record {
          budget = record {
            valid = (rw (found, del) at v);
            costs = remove-IsCost key s.key_costs b.costs;
            bounded = omega (arith, fewer, b.bounded);
            small = b.small;
          };
          less = fewer;
          costs_eq = refl;
          max_eq = refl;
        })
]

pub add-Budget :
    (key : ℕ) (cost : ℤ) (s : SampledLfu)
    → Budget s
    → get key s.key_costs ≡ none
    → neg_part cost ≡ 0
    → total s.key_costs +ℤ cost ≤ℤ s.max_cost
    → Budget (add key cost s)
unfolding add
add-Budget key cost s b absent h le = record {
  valid = add-IsValid key cost s b.valid absent;
  costs = insert-IsCost key cost s.key_costs h b.costs;
  bounded = rw (total-insert_new key cost s.key_costs absent) le;
  small = b.small;
}
