-- ===== src/Policy/Loop.antt =====
-- One round of the eviction loop of `DefaultPolicy::add` in src/policy.rs.
use memory_cache_rust.Prelude.{
  ℕ, suc, ◌≤◌, ◌≡◌, refl, true, false, List, [], ◌∷◌, ◌++◌, none, some, ltb, nat_eq, ok, arith,
  length,
}
use memory_cache_rust.Prelude.Int.{ℤ, pos, ltb_ℤ, ◌<ℤ◌, ◌≤ℤ◌, ◌-ℤ◌, ◌+ℤ◌, neg_part, -ℤ_parts}
use memory_cache_rust.Prelude.HashMap.{HashMap, get}
use memory_cache_rust.Item.{Item}
use memory_cache_rust.Policy.{
  DefaultPolicy, Least, no_least, scan, drop_least, victim, evict_loop, admit_new, add, reject,
}
use memory_cache_rust.Metrics.{Metrics}
use memory_cache_rust.SampledLfu
use memory_cache_rust.SampledLfu.{SampledLfu, PolicyPair, fill_sample, update_if_has, room_left}
use memory_cache_rust.SampledLfu.Budget.{Budget, room_left-eq}
use memory_cache_rust.SampledLfu.Costs.{total}

pub fill_sample_full :
    (order : HashMap ℕ ℤ → List PolicyPair) (s : SampledLfu) (sample : List PolicyPair)
    → 5 ≤ length sample
    → fill_sample order s sample ≡ sample
unfolding fill_sample
fill_sample_full order s sample h = ground arith

-- The policy after an eviction.
abbrev pub without : ℕ → DefaultPolicy → DefaultPolicy
without k p = record p { evict = SampledLfu.del k p.evict }

module _ {V : Type 0} (order : HashMap ℕ ℤ → List PolicyPair) (key : ℕ) (cost : ℤ)
    (inc_hits : ℕ) where
  pub evict_loop_step :
      (fuel : ℕ) (room : ℤ) (sample sample' : List PolicyPair) (least : Least)
      (victims : List (Item V)) (p : DefaultPolicy)
      → ltb_ℤ room (pos 0) ≡ true
      → scan p.admit 0 (fill_sample order p.evict sample) no_least ≡ ok least
      → ltb inc_hits least.min_hits ≡ false
      → drop_least least.min_id (fill_sample order p.evict sample) ≡ ok sample'
      → evict_loop order (suc fuel) key cost inc_hits room sample victims p
        ≡ evict_loop order fuel key cost inc_hits
            (room_left cost p.evict)
            sample'
            (victims ++ victim least ∷ [])
            (without least.min_key p)
  unfolding evict_loop
  evict_loop_step fuel room sample sample' least victims p a b c d = rw a (rw b (rw c (rw d refl)))

  pub evict_loop_reject :
      (fuel : ℕ) (room : ℤ) (sample : List PolicyPair) (least : Least) (victims : List (Item V))
      (p : DefaultPolicy) (m : Metrics)
      → ltb_ℤ room (pos 0) ≡ true
      → scan p.admit 0 (fill_sample order p.evict sample) no_least ≡ ok least
      → ltb inc_hits least.min_hits ≡ true
      → p.metrics ≡ some m
      → evict_loop order (suc fuel) key cost inc_hits room sample victims p
        ≡ ok (record p { metrics = some m }, victims, false)
  unfolding evict_loop reject
  evict_loop_reject fuel room sample least victims p m a b c d = rw a (rw b (rw c (rw d refl)))

  pub evict_loop_exit :
      (fuel : ℕ) (room : ℤ) (sample : List PolicyPair) (victims : List (Item V)) (p : DefaultPolicy)
      → ltb_ℤ room (pos 0) ≡ false
      → evict_loop order (suc fuel) key cost inc_hits room sample victims p
        ≡ ok (record p { evict = SampledLfu.add key cost p.evict }, victims, true)
  unfolding evict_loop
  evict_loop_exit fuel room sample victims p a = rw a refl

-- The room is negative where the costs pass the capacity, and not negative where they do not.
pub room_left_lt :
    (cost : ℤ) (s : SampledLfu)
    → Budget s
    → neg_part cost ≡ 0
    → cost ≤ℤ s.max_cost
    → s.max_cost <ℤ total s.key_costs +ℤ cost
    → ltb_ℤ (room_left cost s) (pos 0) ≡ true
room_left_lt cost s b h le over =
    rw (room_left-eq cost s b h le)
      (ground (arith, -ℤ_parts s.max_cost (total s.key_costs +ℤ cost)))

pub room_left_le :
    (cost : ℤ) (s : SampledLfu)
    → Budget s
    → neg_part cost ≡ 0
    → cost ≤ℤ s.max_cost
    → ltb_ℤ (room_left cost s) (pos 0) ≡ false
    → total s.key_costs +ℤ cost ≤ℤ s.max_cost
room_left_le cost s b h le fits =
    let e = room_left-eq cost s b h le in
    let fits' : ltb_ℤ (s.max_cost -ℤ (total s.key_costs +ℤ cost)) (pos 0) ≡ false =
      (rw e at fits) in
    ground (arith, -ℤ_parts s.max_cost (total s.key_costs +ℤ cost))

-- A new key of a cost within the capacity goes on to the room.
pub add-admit_new :
    {V : Type 0} (order : HashMap ℕ ℤ → List PolicyPair) (fuel key : ℕ) (cost : ℤ)
    (p : DefaultPolicy)
    → get key p.evict.key_costs ≡ none
    → cost ≤ℤ p.evict.max_cost
    → add {V = V} order fuel key cost p ≡ admit_new order fuel key cost p
unfolding add
add-admit_new order fuel key cost p absent le =
    let known : update_if_has key cost p.evict ≡ ok (false, p.evict) =
      unfold update_if_has in rw (absent, update_if_has) refl in
    rw known (ground arith)
