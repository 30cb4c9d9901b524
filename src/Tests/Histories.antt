-- ===== src/Tests/Histories.antt =====
-- A history of calls on a new cache.
use memory_cache_rust.Prelude.{
  Bool, some, arith, none, ℕ, ◌≡◌, ◌⊎◌, refl, true, false, List, [], ◌∷◌, Option, ok, panic,
}
use memory_cache_rust.Prelude.Int.{as_i64, ◌≤ℤ◌, pos, wrap_i64, ◌+ℤ◌, ◌-ℤ◌}
use memory_cache_rust.Prelude.HashMap
use memory_cache_rust.Prelude.HashMap.{HashMap}
use memory_cache_rust.Bloom
use memory_cache_rust.Bloom.{Floats}
use memory_cache_rust.Cache
use memory_cache_rust.Cache.{Cache, Config, with_hasher}
use memory_cache_rust.Cache.Coherent.Agree.{stored}
use memory_cache_rust.Cache.Coherent.Along.{history-Coherent}
use memory_cache_rust.Cache.Coherent.Charged.{history-Budget}
use memory_cache_rust.SampledLfu.Costs.{total}
use memory_cache_rust.Cache.Fresh.{ReadsFresh, get-set_with_ttl, get-del}
use memory_cache_rust.Cache.History.{
  Call, get_call, set_call, del_call, clean_call, perform, perform_all,
}
use memory_cache_rust.Cache.History.Answers.{any_stores, history-answers}
use memory_cache_rust.Cache.History.Sound.{IsHealthy, with_hasher-Healthy, set_until-Healthy}
use memory_cache_rust.Cache.Expiry.{set_with_ttl-until}
use memory_cache_rust.Policy
use memory_cache_rust.Ring
use memory_cache_rust.SampledLfu
use memory_cache_rust.Sketch
use memory_cache_rust.Store
use memory_cache_rust.Store.{Store}
use memory_cache_rust.Tests.Data.{in_order}
use memory_cache_rust.TinyLfu
use memory_cache_rust.Ttl

abbrev floats : Floats
floats = record {
  F = ℕ;
  lit = λ digits places. digits;
  neg = λ x. x;
  mul = λ x y. x;
  div = λ x y. x;
  powf = λ x y. x;
  ln = λ x. x;
  ceil = λ x. x;
  lt = λ x y. false;
  to_u64 = λ x. x;
  of_i64 = λ z. 512;
}

abbrev config : Config
config = record { numb_counters = pos 16; max_cost = pos 9; buffer_items = 2; metrics = false }

abbrev due : HashMap ℕ ℕ → List (ℕ × ℕ)
due m = m

abbrev calls : List (Call ℕ)
calls =
    get_call 0 7 3
    ∷ set_call none 7 3 40 (pos 1) 0
    ∷ get_call 0 7 3
    ∷ del_call 7 0
    ∷ clean_call 5
    ∷ []

made : (c : Cache ℕ) × (with_hasher floats 5 config ≡ ok c)
unfolding with_hasher Policy.new TinyLfu.new Sketch.new Bloom.new Bloom.with_size Bloom.get_size
    Bloom.get_size_loop Bloom.entries_and_locs SampledLfu.new Ring.new Sketch.next_2_power as_i64
    Bloom.size_bits
made = (_, refl)

performed : (c' : Cache ℕ) × (perform_all in_order due 3 calls made.0 ≡ ok c')
unfolding made perform perform_all Cache.get Cache.set_with_ttl Cache.set_until Cache.expiration_of
    Cache.insert_new Cache.init_store Cache.del Cache.clean_up Cache.note Ring.push Ring.new
    Policy.push Policy.add Policy.admit_new Policy.del SampledLfu.update_if_has SampledLfu.room_left
    SampledLfu.add SampledLfu.del Store.update Store.set_node Store.put Store.shard Store.get
    Store.del Store.clean_up Store.clean_items Store.new Store.from Store.hidden Ttl.new Ttl.add
    Ttl.del Ttl.cleanup HashMap.get HashMap.insert HashMap.remove Cache.evict_victims wrap_i64 ◌-ℤ◌
    ◌+ℤ◌
performed = (_, refl)

history-answers_example :
    ((r : Option ℕ × Cache ℕ) × (Cache.get 1 7 3 performed.0 ≡ ok r))
    × (((any_stores calls ≡ false)
          × (Cache.del 7 3 performed.0 ≡ panic)
          × (Cache.clean_up due 6 performed.0 ≡ panic))
        ⊎ ((any_stores calls ≡ true)
            × ((r : Cache ℕ) × (Cache.del 7 3 performed.0 ≡ ok r))
            × ((r : Cache ℕ) × (Cache.clean_up due 6 performed.0 ≡ ok r))))
history-answers_example =
    history-answers in_order due refl 3 floats 5 config calls made.0 performed.0 made.1 performed.1
      1 7 3 6

no_cost : Policy.has 7 performed.0.policy ≡ false
unfolding performed Policy.has made perform perform_all Cache.get Cache.set_with_ttl Cache.set_until
    Cache.expiration_of Cache.insert_new Cache.init_store Cache.del Cache.clean_up Cache.note
    Ring.push Ring.new Policy.push Policy.add Policy.admit_new Policy.del SampledLfu.update_if_has
    SampledLfu.room_left SampledLfu.add SampledLfu.del Store.update Store.set_node Store.put
    Store.shard Store.get Store.del Store.clean_up Store.clean_items Store.new Store.from
    Store.hidden Ttl.new Ttl.add Ttl.del Ttl.cleanup HashMap.get HashMap.insert HashMap.remove
    Cache.evict_victims wrap_i64 ◌-ℤ◌ ◌+ℤ◌
no_cost = refl

history-Coherent_example : stored 7 performed.0.store ≡ none
history-Coherent_example =
    history-Coherent in_order due refl 3 floats 5 config calls made.0 performed.0
      (tt, (tt, (tt, (refl, (tt, tt))))) made.1 performed.1 7 no_cost

-- Every key costs 1.
history-Budget_example : total performed.0.policy.evict.key_costs ≤ℤ pos 9
history-Budget_example =
    history-Budget in_order due 3 (λ key. pos 1) floats 5 config calls made.0 performed.0 refl
      (λ key. refl) refl (omega arith) (tt, (refl, (tt, (tt, (tt, tt))))) made.1 performed.1

inserted :
    (r : Bool × Cache ℕ) × (Cache.set_with_ttl in_order 3 none 7 3 40 (pos 1) 0 made.0 ≡ ok r)
unfolding made perform perform_all Cache.get Cache.set_with_ttl Cache.set_until Cache.expiration_of
    Cache.insert_new Cache.init_store Cache.del Cache.clean_up Cache.note Ring.push Ring.new
    Policy.push Policy.add Policy.admit_new Policy.del SampledLfu.update_if_has SampledLfu.room_left
    SampledLfu.add SampledLfu.del Store.update Store.set_node Store.put Store.shard Store.get
    Store.del Store.clean_up Store.clean_items Store.new Store.from Store.hidden Ttl.new Ttl.add
    Ttl.del Ttl.cleanup HashMap.get HashMap.insert HashMap.remove Cache.evict_victims wrap_i64 ◌-ℤ◌
    ◌+ℤ◌
inserted = (_, refl)

inserted_store : (s : Store ℕ) × (inserted.0.1.store ≡ some s)
unfolding inserted made perform perform_all Cache.get Cache.set_with_ttl Cache.set_until
    Cache.expiration_of Cache.insert_new Cache.init_store Cache.del Cache.clean_up Cache.note
    Ring.push Ring.new Policy.push Policy.add Policy.admit_new Policy.del SampledLfu.update_if_has
    SampledLfu.room_left SampledLfu.add SampledLfu.del Store.update Store.set_node Store.put
    Store.shard Store.get Store.del Store.clean_up Store.clean_items Store.new Store.from
    Store.hidden Ttl.new Ttl.add Ttl.del Ttl.cleanup HashMap.get HashMap.insert HashMap.remove
    Cache.evict_victims wrap_i64 ◌-ℤ◌ ◌+ℤ◌
inserted_store = (_, refl)

made-IsHealthy : IsHealthy made.0
made-IsHealthy = (with_hasher-Healthy floats 5 config made.0 made.1).0

get-set_with_ttl_example : ReadsFresh 5 7 3 40 inserted.0.1
get-set_with_ttl_example =
    get-set_with_ttl in_order 3 none 7 3 40 (pos 1) 0 made.0 inserted.0.1 inserted.0.0 5
      made-IsHealthy inserted.1

inserted-IsHealthy : IsHealthy inserted.0.1
inserted-IsHealthy =
    (set_until-Healthy in_order 3 7 3 40 (pos 1) 0 made.0 inserted.0.1 inserted.0.0 made-IsHealthy
      (set_with_ttl-until in_order 3 none 7 3 40 (pos 1) 0 made.0 inserted.0 inserted.1)).0

get-del_example :
    (c' : Cache ℕ) × (Cache.del 7 3 inserted.0.1 ≡ ok c')
    × ((c'' : Cache ℕ) × (Cache.get 5 7 3 c' ≡ ok (none, c'')))
get-del_example = get-del 5 7 3 inserted.0.1 inserted_store.0 inserted-IsHealthy inserted_store.1
