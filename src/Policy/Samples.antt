-- ===== src/Policy/Samples.antt =====
-- The samples of `DefaultPolicy::add` in src/policy.rs, and the room after an eviction.
use memory_cache_rust.Prelude.{
  ℕ, ◌+◌, ◌<◌, ◌≡◌, refl, true, false, List, [], ◌∷◌, ◌++◌, some, ltb, nat_eq, arith, length,
  length-append, All, All-imp, Bool-cases, inl, inr,
}
use memory_cache_rust.Prelude.Int.{ℤ, pos, ltb_ℤ, ◌≤ℤ◌, ◌+ℤ◌, ◌-ℤ◌, neg_part, +ℤ_parts, -ℤ_parts}
use memory_cache_rust.Prelude.HashMap.{HashMap, IsMap, get, remove}
use memory_cache_rust.Policy.Loop.{without}
use memory_cache_rust.Policy.{DefaultPolicy}
use memory_cache_rust.SampledLfu.Budget.{Budget, room_left-eq, del-Deleted}
use memory_cache_rust.SampledLfu.Costs.{total, total-remove}
use memory_cache_rust.SampledLfu.{PolicyPair, SampledLfu, fill_from, fill_sample, room_left}

-- An iteration over a map visits its entries, and no others.
pub record IsOrder (order : HashMap ℕ ℤ → List PolicyPair) : Type 1 where
  pub visits : (P : PolicyPair → Type 0) (m : HashMap ℕ ℤ) → All P m → All P (order m)
  pub some_visit : (m : HashMap ℕ ℤ) → 0 < length m → 0 < length (order m)

pub entries_get : (m : HashMap ℕ ℤ) → IsMap m → All (λ e. get e.0 m ≡ some e.1) m
unfolding get
entries_get [] d = tt
entries_get ((j, w) ∷ m) (d, ds) =
    (ground arith, All-imp (λ e. get e.0 m ≡ some e.1) _ m (λ e h. ground arith) (entries_get m ds))

pub get-le :
    (cost : ℤ) (k : ℕ) (v : ℤ) (m : HashMap ℕ ℤ)
    → All (λ e. cost ≤ℤ e.1) m
    → get k m ≡ some v
    → cost ≤ℤ v
unfolding get
get-le cost k v [] a h = ground arith
get-le cost k v ((j, w) ∷ m) (a, as_) h = ground (arith, get-le cost k v m as_)

pub fill_from-lt :
    (es input : List PolicyPair) → 0 < length input + length es → 0 < length (fill_from es input)
unfolding fill_from
fill_from-lt [] input h = omega arith
fill_from-lt (e ∷ es) input h =
    let longer : length (input ++ e ∷ []) ≡ length input + 1 = length-append input (e ∷ []) in
    ground (arith, longer, fill_from-lt es (input ++ e ∷ []) (omega (arith, longer)))

pub fill_sample-lt :
    (order : HashMap ℕ ℤ → List PolicyPair) (s : SampledLfu) (input : List PolicyPair)
    → 0 < length input + length (order s.key_costs)
    → 0 < length (fill_sample order s input)
unfolding fill_sample
fill_sample-lt order s input h = ground (arith, fill_from-lt (order s.key_costs) input h)

pub room_left_ge :
    (cost : ℤ) (s : SampledLfu)
    → Budget s
    → neg_part cost ≡ 0
    → cost ≤ℤ s.max_cost
    → total s.key_costs +ℤ cost ≤ℤ s.max_cost
    → ltb_ℤ (room_left cost s) (pos 0) ≡ false
room_left_ge cost s b h le fits =
    rw (room_left-eq cost s b h le)
      (ground (arith, -ℤ_parts s.max_cost (total s.key_costs +ℤ cost)))

pub total-nil : (m : HashMap ℕ ℤ) → length m ≡ 0 → total m ≡ pos 0
unfolding total
total-nil [] h = refl
total-nil (e ∷ m) h = absurd (omega (arith, h))

pub some_cost :
    (cost : ℤ) (s : SampledLfu)
    → Budget s
    → neg_part cost ≡ 0
    → cost ≤ℤ s.max_cost
    → ltb_ℤ (room_left cost s) (pos 0) ≡ true
    → 0 < length s.key_costs
some_cost cost s b h le lacking = elim (Bool-cases (ltb 0 (length s.key_costs))) [
  | inl some_key ↦ ground arith
  | inr no_key ↦
      let empty : total s.key_costs ≡ pos 0 = total-nil s.key_costs (ground arith) in
      let fits : total s.key_costs +ℤ cost ≤ℤ s.max_cost =
        rw empty (omega (arith, le, +ℤ_parts (pos 0) cost)) in
      let enough = room_left_ge cost s b h le fits in absurd (ground (arith, lacking, enough))
]

-- The eviction of a key that costs as much as the new one makes the room.
pub roomy_without :
    (cost : ℤ) (p : DefaultPolicy) (k : ℕ) (v : ℤ)
    → neg_part cost ≡ 0
    → Budget p.evict
    → cost ≤ℤ p.evict.max_cost
    → cost ≤ℤ v
    → get k p.evict.key_costs ≡ some v
    → ltb_ℤ (room_left cost (without k p).evict) (pos 0) ≡ false
roomy_without cost p k v nonneg w le dear here =
    let d = del-Deleted k p.evict w in
    let less : total (remove k p.evict.key_costs) ≡ total p.evict.key_costs -ℤ v =
      total-remove k v p.evict.key_costs w.valid.distinct here in
    let fits : total (remove k p.evict.key_costs) +ℤ cost ≤ℤ p.evict.max_cost = rw less (
      omega (
        arith,
        dear,
        w.bounded,
        +ℤ_parts (total p.evict.key_costs -ℤ v) cost,
        -ℤ_parts (total p.evict.key_costs) v,
      )) in
    room_left_ge cost (without k p).evict d.budget nonneg (rw d.max_eq le)
      (rw (d.costs_eq, d.max_eq) fits)

pub All-trivial : (es : List PolicyPair) → All (λ e. Unit {0}) es
All-trivial [] = tt
All-trivial (e ∷ es) = (tt, All-trivial es)
