-- ===== src/Tests/Costs.antt =====
-- The costs and the eviction loop at concrete inputs.
use memory_cache_rust.Prelude.{
  ℕ, ◌≡◌, refl, Bool, true, ◌&&◌, ◌++◌, List, [], ◌∷◌, none, some, ok, timeout, nat_eq, nat_beq,
  ltb, if◌then◌else◌, is_some, arith, inl,
}
use memory_cache_rust.Prelude.Int.{ℤ, pos, wrap_i64, ◌+ℤ◌, ◌-ℤ◌}
use memory_cache_rust.Prelude.HashMap
use memory_cache_rust.Prelude.HashMap.{HashMap, get}
use memory_cache_rust.Bloom
use memory_cache_rust.Item.{Item}
use memory_cache_rust.Metrics
use memory_cache_rust.Policy
use memory_cache_rust.Policy.{DefaultPolicy, victim}
use memory_cache_rust.Policy.Capacity.{Settled, add-Settled}
use memory_cache_rust.Policy.Diverge.{Hopeless, IsDoomed, kept, add-timeout}
use memory_cache_rust.Policy.Enough.{add_returns, add_quiet}
use memory_cache_rust.Policy.Scan.{Rated}
use memory_cache_rust.SampledLfu
use memory_cache_rust.SampledLfu.{SampledLfu}
use memory_cache_rust.SampledLfu.Budget.{Budget}
use memory_cache_rust.SampledLfu.Costs
use memory_cache_rust.SampledLfu.Costs.{total, update_if_has_lem, del-IsValid}
use memory_cache_rust.Sketch
use memory_cache_rust.Sketch.Row
use memory_cache_rust.Tests.Data.{in_order, in_order-IsOrder, policy, no_hits, tiny-IsValid}
use memory_cache_rust.TinyLfu

-- A key of cost 2 fills the policy.
abbrev filled : DefaultPolicy
filled = policy ((1, pos 2) ∷ []) (pos 2) (pos 2)

filled-Budget : Budget filled.evict
unfolding total wrap_i64 ◌+ℤ◌ get
filled-Budget = record {
  valid = record { distinct = (refl, tt); summed = refl };
  costs = (refl, tt);
  bounded = omega arith;
  small = omega arith;
}

-- The key is evicted twice, since the room is read before the first eviction.
abbrev swapped : DefaultPolicy × List (Item ℕ) × Bool
swapped =
    let v : Item ℕ = victim (record { min_key = 1; min_hits = 0; min_id = 0; min_cost = pos 2 }) in
    (policy ((7, pos 1) ∷ []) (pos 1) (pos 2), v ∷ v ∷ [], true)

swapped_run : Policy.add in_order 3 7 (pos 1) filled ≡ ok swapped
unfolding Policy.add Policy.admit_new Policy.evict_loop Policy.scan Policy.drop_least
    SampledLfu.room_left SampledLfu.fill_sample SampledLfu.fill_from SampledLfu.del SampledLfu.add
    SampledLfu.update_if_has TinyLfu.estimate Sketch.estimate Sketch.estimate_rows Row.get Row.at
    Row.new_cm_row Bloom.has Bloom.has_from Bloom.isset Bloom.location HashMap.get HashMap.insert
    HashMap.remove wrap_i64 ◌+ℤ◌ ◌-ℤ◌
swapped_run = refl

add-Settled_example : Settled 7 (pos 1) swapped
unfolding HashMap.get
add-Settled_example =
    add-Settled in_order 7 (pos 1) refl 3 filled swapped filled-Budget refl swapped_run

update_if_has_lem_example :
    (s' : SampledLfu) × (SampledLfu.update_if_has 1 (pos 9) filled.evict
      ≡ ok (is_some (get 1 filled.evict.key_costs), s'))
    × Costs.IsValid s'
    × ((k : ℕ)
        → get k s'.key_costs ≡ (
            if is_some (get 1 filled.evict.key_costs) && nat_beq 1 k
            then some (pos 9)
            else get k filled.evict.key_costs))
    × (get 1 filled.evict.key_costs ≡ none → s' ≡ filled.evict)
    × (s'.max_cost ≡ pos 2)
    × (s'.metrics ≡ none)
update_if_has_lem_example = update_if_has_lem 1 (pos 9) filled.evict filled-Budget.valid (inl refl)

-- The same policy with metrics.
abbrev metered : DefaultPolicy
metered = record filled { metrics = some (Metrics.new Metrics.do_not_use) }

add_returns_example :
    (r : DefaultPolicy × List (Item ℕ) × Bool) × (Policy.add in_order 3 7 (pos 1) metered ≡ ok r)
    × Settled 7 (pos 1) r
unfolding get
add_returns_example =
    add_returns in_order in_order-IsOrder 7 (pos 1) refl 0 0 metered
      (Metrics.new Metrics.do_not_use) (omega arith) filled-Budget tiny-IsValid refl refl
      (omega arith, tt)

add_quiet_example :
    (r : DefaultPolicy × List (Item ℕ) × Bool) × (Policy.add in_order 3 7 (pos 1) filled ≡ ok r)
    × (r.2 ≡ true)
    × Settled 7 (pos 1) r
unfolding get
add_quiet_example =
    add_quiet in_order in_order-IsOrder 7 (pos 1) refl 0 filled filled-Budget no_hits refl
      (omega arith) (omega arith, tt)

-- Five keys of cost 1, which are all that the sample takes, and one of cost 20.
abbrev small_keys : HashMap ℕ ℤ
small_keys = (0, pos 1) ∷ (1, pos 1) ∷ (2, pos 1) ∷ (3, pos 1) ∷ (4, pos 1) ∷ []

abbrev crowded : DefaultPolicy
crowded = policy (small_keys ++ (9, pos 20) ∷ []) (pos 25) (pos 30)

abbrev below_five : ℕ → Bool
below_five k = ltb k 5

crowded-Budget : Budget crowded.evict
unfolding total wrap_i64 ◌+ℤ◌ get
crowded-Budget = record {
  valid = record { distinct = (refl, (refl, (refl, (refl, (refl, (refl, tt)))))); summed = refl };
  costs = (refl, (refl, (refl, (refl, (refl, (refl, tt))))));
  bounded = omega arith;
  small = omega arith;
}

rated : (k : ℕ) (v : ℤ) → ltb k 5 ≡ true → Rated (IsDoomed below_five) crowded.admit 0 (k, v)
rated k v e = (e, (0, no_hits k, omega arith))

crowded-Hopeless :
    Hopeless below_five (pos 25) 0 crowded (SampledLfu.fill_sample in_order crowded.evict [])
unfolding SampledLfu.fill_sample SampledLfu.fill_from ◌+ℤ◌ kept
crowded-Hopeless = record {
  budget = crowded-Budget;
  fits = omega arith;
  over = omega arith;
  full = omega arith;
  rated = (
    rated 0 (pos 1) refl,
    (
      rated 1 (pos 1) refl,
      (rated 2 (pos 1) refl, (rated 3 (pos 1) refl, (rated 4 (pos 1) refl, tt))),
    ),
  );
}

add-timeout_example : Policy.add {V = ℕ} in_order 50 7 (pos 25) crowded ≡ timeout
unfolding get
add-timeout_example =
    add-timeout below_five in_order 7 (pos 25) 0 refl (omega arith) 50 crowded refl (no_hits 7)
      crowded-Hopeless
