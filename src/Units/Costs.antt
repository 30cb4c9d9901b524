-- ===== src/Units/Costs.antt =====
-- The tests of `SampledLFU` in src/policy.rs.
use memory_cache_rust.Prelude.{
  Bool, true, false, not, Option, none, some, Run, ◌>>=◌, nat_beq, nat_eq, length,
}
use memory_cache_rust.Prelude.Int.{ℤ, pos, int_beq}
use memory_cache_rust.Prelude.HashMap
use memory_cache_rust.SampledLfu
use memory_cache_rust.SampledLfu.{SampledLfu, update_if_has}
use memory_cache_rust.Units.{assert, shard_metric}

-- `assert_eq!` on what a map has at a key.
abbrev pub is_cost : Option ℤ → Option ℤ → Bool
is_cost none none = true
is_cost none (some b) = false
is_cost (some a) none = false
is_cost (some a) (some b) = int_beq a b

abbrev start : SampledLfu
start = SampledLfu.new (pos 4) shard_metric

unfoldable pub test_lfu_add : Run (Unit {0})
test_lfu_add = do
  let lfu = SampledLfu.add 3 (pos 1) (SampledLfu.add 2 (pos 2) (SampledLfu.add 1 (pos 1) start))
  first ← assert (int_beq lfu.used (pos 4))
  assert (is_cost (HashMap.get 2 lfu.key_costs) (some (pos 2)))

unfoldable pub test_lfu_del : Run (Unit {0})
test_lfu_del = do
  let lfu = SampledLfu.del 2 (SampledLfu.add 2 (pos 2) (SampledLfu.add 1 (pos 1) start))
  first ← assert (int_beq lfu.used (pos 1))
  assert (is_cost (HashMap.get 2 lfu.key_costs) none)

unfoldable pub test_lfu_update : Run (Unit {0})
test_lfu_update = do
  known ← update_if_has 1 (pos 2) (SampledLfu.add 1 (pos 1) start)
  first ← assert known.0
  second ← assert (int_beq known.1.used (pos 2))
  unknown ← update_if_has 2 (pos 2) known.1
  assert (not unknown.0)

unfoldable pub test_lfu_clear : Run (Unit {0})
test_lfu_clear = do
  let lfu =
      SampledLfu.clear
        (SampledLfu.add 3 (pos 3) (SampledLfu.add 2 (pos 2) (SampledLfu.add 1 (pos 1) start)))
  first ← assert (int_beq lfu.used (pos 0))
  assert (nat_beq (length lfu.key_costs) 0)
