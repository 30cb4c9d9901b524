-- ===== src/Units/Admission.antt =====
-- The tests of `DefaultPolicy` in src/policy.rs.
use memory_cache_rust.Prelude.{
  ℕ, zero, suc, ◌+◌, Bool, not, ◌||◌, List, [], ◌∷◌, some, Run, ok, ◌>>=◌, nat_beq, nat_eq, length,
  ltb, if◌then◌else◌,
}
use memory_cache_rust.Prelude.Int.{ℤ, pos, negsuc, int_beq}
use memory_cache_rust.Prelude.HashMap
use memory_cache_rust.Prelude.HashMap.{HashMap}
use memory_cache_rust.Bloom.{Floats}
use memory_cache_rust.Item.{Item}
use memory_cache_rust.Policy
use memory_cache_rust.Policy.{DefaultPolicy}
use memory_cache_rust.SampledLfu.{PolicyPair}
use memory_cache_rust.TinyLfu
use memory_cache_rust.Units.Costs.{is_cost}
use memory_cache_rust.Units.{assert, shard_metric}

module _ (fl : Floats) (source : ℕ) where
  -- The loop of ten pushes, and how many are kept.
  unfoldable pub push_rounds : ℕ → ℕ → DefaultPolicy → Run ℕ
  push_rounds zero keep_count p = ok keep_count
  push_rounds (suc left) keep_count p = do
    r ← Policy.push (1 ∷ 2 ∷ 3 ∷ 4 ∷ 5 ∷ []) p
    push_rounds left (if r.0 then keep_count + 1 else keep_count) r.1

  unfoldable pub test_policy_policy_push : Run (Unit {0})
  unfolding push_rounds
  test_policy_policy_push = do
    p ← Policy.new fl source (pos 100) (pos 10) shard_metric
    keep_count ← push_rounds 10 0 p
    assert (not (nat_beq keep_count 0))

  module _ (order : HashMap ℕ ℤ → List PolicyPair) (fuel : ℕ) where
    abbrev added : ℕ → ℤ → DefaultPolicy → Run (DefaultPolicy × List (Item ℕ) × Bool)
    added key cost p = Policy.add order fuel key cost p

    unfoldable pub test_policy_policy_add : Run (Unit {0})
    test_policy_policy_add = do
      p ← Policy.new fl source (pos 1000) (pos 100) shard_metric
      v1 ← added 1 (pos 101) p
      a1 ← assert (nat_beq (length v1.1) 0 || v1.2)
      v2 ← added 1 (pos 1) v1.0
      t1 ← TinyLfu.increment 1 v2.0.admit
      t2 ← TinyLfu.increment 2 t1
      t3 ← TinyLfu.increment 3 t2
      v3 ← added 1 (pos 1) (record v2.0 { admit = t3 })
      a3 ← assert (nat_beq (length v3.1) 0)
      b3 ← assert (not v3.2)
      v4 ← added 2 (pos 20) v3.0
      a4 ← assert (nat_beq (length v4.1) 0)
      b4 ← assert v4.2
      v5 ← added 3 (pos 90) v4.0
      a5 ← assert (ltb 0 (length v5.1))
      b5 ← assert v5.2
      v6 ← added 4 (pos 20) v5.0
      a6 ← assert (nat_beq (length v6.1) 0)
      assert (not v6.2)

    unfoldable pub test_policy_del : Run (Unit {0})
    test_policy_del = do
      p ← Policy.new fl source (pos 1000) (pos 100) shard_metric
      v ← added 1 (pos 1) p
      let q = Policy.del 2 (Policy.del 1 v.0)
      a1 ← assert (not (Policy.has 1 q))
      assert (not (Policy.has 2 q))

    unfoldable pub test_policy_cap : Run (Unit {0})
    test_policy_cap = do
      p ← Policy.new fl source (pos 100) (pos 10) shard_metric
      v ← added 1 (pos 1) p
      assert (int_beq (Policy.cap v.0) (pos 9))

    unfoldable pub test_policy_update : Run (Unit {0})
    test_policy_update = do
      p ← Policy.new fl source (pos 100) (pos 10) shard_metric
      v ← added 1 (pos 1) p
      w ← added 1 (pos 2) v.0
      assert (is_cost (HashMap.get 1 w.0.evict.key_costs) (some (pos 2)))

    unfoldable pub test_policy_cost : Run (Unit {0})
    test_policy_cost = do
      p ← Policy.new fl source (pos 100) (pos 10) shard_metric
      v ← added 1 (pos 1) p
      a1 ← assert (int_beq (Policy.cost 1 v.0) (pos 1))
      assert (int_beq (Policy.cost 2 v.0) (negsuc 0))

    unfoldable pub test_policy_clear : Run (Unit {0})
    test_policy_clear = do
      p ← Policy.new fl source (pos 100) (pos 10) shard_metric
      v1 ← added 1 (pos 1) p
      v2 ← added 2 (pos 2) v1.0
      v3 ← added 3 (pos 3) v2.0
      let q = Policy.clear v3.0
      a1 ← assert (not (Policy.has 1 q))
      a2 ← assert (not (Policy.has 2 q))
      assert (not (Policy.has 2 q))
