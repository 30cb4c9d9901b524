-- ===== src/SampledLfu.antt =====
-- `SampledLFU` of src/policy.rs: the costs of the keys, their sum, and the sample of victims.
pub mod Costs
pub mod Budget
pub mod Updates
use memory_cache_rust.Prelude.{
  ℕ, zero, suc, ◌≤◌, Bool, true, false, List, [], ◌∷◌, ◌++◌, Option, none, some, leb, if◌then◌else◌,
  Run, ok, ◌>>=◌, length, nat_eq,
}
use memory_cache_rust.Prelude.Int.{ℤ, pos, ◌+ℤ◌, ◌-ℤ◌, ltb_ℤ, wrap_i64, as_u64}
use memory_cache_rust.Prelude.HashMap
use memory_cache_rust.Prelude.HashMap.{HashMap}
use memory_cache_rust.Metrics
use memory_cache_rust.Metrics.{Metrics, key_update, cost_add}

-- `metrics` is a pointer into the cache, `none` if null.
pub record SampledLfu : Type 0 where
  pub key_costs : HashMap ℕ ℤ
  pub max_cost : ℤ
  pub used : ℤ
  pub metrics : Option Metrics

abbrev pub lfu_sample : ℕ
lfu_sample = 5

-- `PolicyPair`: a key and its cost.
abbrev pub PolicyPair : Type 0
PolicyPair = ℕ × ℤ

unfoldable pub new : ℤ → Option Metrics → SampledLfu
new max_cost shared = record { key_costs = []; max_cost = max_cost; used = pos 0; metrics = shared }

unfoldable pub room_left : ℤ → SampledLfu → ℤ
room_left cost s = wrap_i64 (s.max_cost -ℤ wrap_i64 (s.used +ℤ cost))

-- The loop of `fill_sample` over the entries in their order of iteration.
unfoldable pub fill_from : List PolicyPair → List PolicyPair → List PolicyPair
fill_from [] input = input
fill_from (e ∷ es) input =
    let input' = input ++ e ∷ [] in
    if leb lfu_sample (length input') then input' else fill_from es input'

unfoldable pub fill_sample :
    (HashMap ℕ ℤ → List PolicyPair) → SampledLfu → List PolicyPair → List PolicyPair
unfolding fill_from
fill_sample order s input =
    if leb lfu_sample (length input) then input else fill_from (order s.key_costs) input

unfoldable pub del : ℕ → SampledLfu → SampledLfu
del key s = elim (HashMap.get key s.key_costs) [
  | none ↦ s
  | some v ↦ record s { used = wrap_i64 (s.used -ℤ v); key_costs = HashMap.remove key s.key_costs }
]

unfoldable pub add : ℕ → ℤ → SampledLfu → SampledLfu
add key cost s = record s {
  key_costs = HashMap.insert key cost s.key_costs;
  used = wrap_i64 (s.used +ℤ cost);
}

-- A call of `Metrics::add` through the pointer, if it is not null.
unfoldable pub note : ℕ → ℕ → ℕ → SampledLfu → Run SampledLfu
note kind key delta s = elim s.metrics [
  | none ↦ ok s
  | some m ↦ Metrics.add kind key delta m >>= λ m'. ok (record s { metrics = some m' })
]

-- What `update_if_has` reports of a change from cost `v` to `cost`.
unfoldable pub note_change : ℕ → ℤ → ℤ → SampledLfu → Run SampledLfu
unfolding note
note_change key v cost s =
    let diff = wrap_i64 (v -ℤ cost) in
    if ltb_ℤ cost v
    then note cost_add key (as_u64 (wrap_i64 (diff -ℤ pos 1))) s
    else if ltb_ℤ v cost
    then note cost_add key (as_u64 diff) s
    else ok s

unfoldable pub update_if_has : ℕ → ℤ → SampledLfu → Run (Bool × SampledLfu)
unfolding note_change
update_if_has key cost s = elim (HashMap.get key s.key_costs) [
  | none ↦ ok (false, s)
  | some v ↦ do
    s₁ ← note key_update key 1 s
    s₂ ← note_change key v cost s₁
    ok (
      true,
      record s₂ {
        used = wrap_i64 (s₂.used +ℤ wrap_i64 (cost -ℤ v));
        key_costs = HashMap.insert key cost s₂.key_costs;
      },
    )
]

unfoldable pub clear : SampledLfu → SampledLfu
clear s = record s { used = pos 0; key_costs = [] }
