-- ===== src/Tests/Passed.antt =====
-- The unit tests of src/ on the model, at one seed and with a filter of 512 bits, all of which pass.
use memory_cache_rust.Prelude.{ℕ, ◌≡◌, refl, ok, []}
use memory_cache_rust.Prelude.Int.{as_i64, wrap_i64, ◌+ℤ◌, ◌-ℤ◌}
use memory_cache_rust.Prelude.HashMap
use memory_cache_rust.Bloom
use memory_cache_rust.Bloom.{Floats}
use memory_cache_rust.Hash
use memory_cache_rust.Hash.{Hashers}
use memory_cache_rust.Item
use memory_cache_rust.Metrics
use memory_cache_rust.Policy
use memory_cache_rust.SampledLfu
use memory_cache_rust.Sketch
use memory_cache_rust.Sketch.Print
use memory_cache_rust.Sketch.Row
use memory_cache_rust.Store
use memory_cache_rust.Tests.Data.{in_order}
use memory_cache_rust.Tests.Replays.{floats}
use memory_cache_rust.TinyLfu
use memory_cache_rust.Ttl
use memory_cache_rust.Units.Admission
use memory_cache_rust.Units.Costs
use memory_cache_rust.Units.Counters
use memory_cache_rust.Units.Nodes

lfu_passed :
    (Costs.test_lfu_add ≡ ok tt)
    × (Costs.test_lfu_del ≡ ok tt)
    × (Costs.test_lfu_update ≡ ok tt)
    × (Costs.test_lfu_clear ≡ ok tt)
unfolding Costs.test_lfu_add Costs.test_lfu_del Costs.test_lfu_update Costs.test_lfu_clear
    SampledLfu.new SampledLfu.add SampledLfu.del SampledLfu.update_if_has SampledLfu.note_change
    SampledLfu.note SampledLfu.clear Metrics.add Metrics.new HashMap.get HashMap.insert
    HashMap.remove wrap_i64 ◌+ℤ◌ ◌-ℤ◌
lfu_passed = (refl, refl, refl, refl)

policy_passed :
    (Admission.test_policy_del floats 5 in_order 3 ≡ ok tt)
    × (Admission.test_policy_cap floats 5 in_order 3 ≡ ok tt)
    × (Admission.test_policy_update floats 5 in_order 3 ≡ ok tt)
    × (Admission.test_policy_cost floats 5 in_order 3 ≡ ok tt)
    × (Admission.test_policy_clear floats 5 in_order 3 ≡ ok tt)
unfolding Admission.test_policy_del Admission.test_policy_cap Admission.test_policy_update
    Admission.test_policy_cost Admission.test_policy_clear Policy.new Policy.add Policy.admit_new
    Policy.del Policy.has Policy.cap Policy.cost Policy.clear TinyLfu.new TinyLfu.clear Sketch.new
    Sketch.clear Sketch.next_2_power as_i64 Bloom.new Bloom.clear Bloom.with_size Bloom.get_size
    Bloom.get_size_loop Bloom.entries_and_locs Bloom.size_bits SampledLfu.new SampledLfu.add
    SampledLfu.room_left SampledLfu.del SampledLfu.update_if_has SampledLfu.note_change
    SampledLfu.note SampledLfu.clear Metrics.add Metrics.new HashMap.get HashMap.insert
    HashMap.remove wrap_i64 ◌+ℤ◌ ◌-ℤ◌
policy_passed = (refl, refl, refl, refl, refl)

collision_passed : Nodes.test_set_collision 0 ≡ ok tt
unfolding Nodes.test_set_collision Store.new Store.from Store.get Store.set_node Store.update
    Store.del Store.put Store.shard Store.hidden HashMap.get HashMap.insert HashMap.remove
    Item.node_new Ttl.new Ttl.add Ttl.update Ttl.del
collision_passed = refl

abbrev hashers : Hashers ℕ
hashers = record {
  finish = λ k. 0;
  memory = λ k. [];
  text = λ k. [];
  xxh3 = λ bytes. 0;
  seahash = λ bytes. 0;
}

store_passed :
    (Nodes.test_set_get hashers 0 ≡ ok tt)
    × (Nodes.test_set_del hashers 0 ≡ ok tt)
    × (Nodes.test_set_clear hashers 0 ≡ ok tt)
    × (Nodes.test_set_update hashers 0 ≡ ok tt)
unfolding Nodes.test_set_get Nodes.test_set_del Nodes.test_set_clear Nodes.test_set_update
    Nodes.set_get_rounds Nodes.set_del_rounds Nodes.set_rounds Nodes.none_rounds Nodes.update_rounds
    Hash.key_to_hash Store.clear Store.new Store.from Store.get Store.set_node Store.update
    Store.del Store.put Store.shard Store.hidden HashMap.get HashMap.insert HashMap.remove
    Item.node_new Ttl.new Ttl.add Ttl.update Ttl.del
store_passed = (refl, refl, refl, refl)

sketch_passed :
    (Counters.test_sketch_reset 5 ≡ ok tt)
    × (Counters.test_sketch_estimate 5 ≡ ok tt)
    × (Counters.test_sketch_increment 5 ≡ ok tt)
    × (Counters.test_sketch 5 ≡ ok tt)
unfolding Counters.test_sketch_reset Counters.test_sketch_estimate Counters.test_sketch_increment
    Counters.test_sketch Counters.row_rounds Sketch.new Sketch.next_2_power as_i64 Sketch.increment
    Sketch.increment_rows Sketch.estimate Sketch.estimate_rows Sketch.reset Row.increment Row.get
    Row.at Row.reset Row.new_cm_row Print.string Print.string_from
sketch_passed = (refl, refl, refl, refl)

-- A filter of 512 bits with seven locations, in which small keys are apart.
abbrev seven : Floats
seven = record floats { lit = λ digits places. 7 }

add_passed :
    (Admission.test_policy_policy_add seven 5 in_order 9 ≡ ok tt)
    × (Admission.test_policy_policy_push seven 5 ≡ ok tt)
unfolding Admission.test_policy_policy_add Admission.test_policy_policy_push Admission.push_rounds
    Policy.new Policy.add Policy.admit_new Policy.evict_loop Policy.scan Policy.drop_least
    Policy.reject Policy.push Policy.process_items TinyLfu.new TinyLfu.push TinyLfu.increment
    TinyLfu.estimate TinyLfu.age TinyLfu.reset Sketch.new Sketch.increment Sketch.increment_rows
    Sketch.estimate Sketch.estimate_rows Sketch.clear Sketch.next_2_power as_i64 Row.increment
    Row.get Row.at Row.clear Row.new_cm_row Bloom.new Bloom.clear Bloom.with_size Bloom.get_size
    Bloom.get_size_loop Bloom.entries_and_locs Bloom.size_bits Bloom.add_if_not_has Bloom.add
    Bloom.add_from Bloom.has Bloom.has_from Bloom.set_bit Bloom.isset Bloom.location SampledLfu.new
    SampledLfu.add SampledLfu.room_left SampledLfu.fill_sample SampledLfu.fill_from SampledLfu.del
    SampledLfu.update_if_has SampledLfu.note_change SampledLfu.note Metrics.add Metrics.new
    HashMap.get HashMap.insert HashMap.remove wrap_i64 ◌+ℤ◌ ◌-ℤ◌
add_passed = (refl, refl)

has_passed : Counters.test_has floats ≡ ok tt
unfolding Counters.test_has Bloom.new Bloom.with_size Bloom.get_size Bloom.get_size_loop
    Bloom.entries_and_locs Bloom.size_bits Bloom.add_if_not_has Bloom.add Bloom.add_from Bloom.has
    Bloom.has_from Bloom.set_bit Bloom.isset Bloom.location
has_passed = refl
