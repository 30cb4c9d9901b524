-- ===== src/Tests/Threads.antt =====
-- The threads that build a store, at concrete schedules.
use memory_cache_rust.Prelude.{ℕ, ◌≡◌, refl, true, false, List, [], ◌∷◌, ◌++◌, some, arith}
use memory_cache_rust.Cache.Init.{
  Threads, done, run, init_store_threads, unbuilt, advance, turn, usable,
}
use memory_cache_rust.Cache.Init.Free.{run-unblocked}
use memory_cache_rust.Cache.Init.Lock.{critical}
use memory_cache_rust.Cache.Init.Safe.{run-exclusive, run-agree}
use memory_cache_rust.Cache.Init.Wait.{run-finish}
use memory_cache_rust.Store
use memory_cache_rust.Store.{Store}

is_full : Store.is_empty {V = ℕ} Store.new ≡ false
unfolding Store.is_empty Store.new Store.from
is_full = refl

-- The threads of a store after a schedule.
abbrev after : List ℕ → Threads (Store ℕ)
after is = init_store_threads is unbuilt

-- Both threads find no table, and thread 0 wins the exchange.
abbrev race : List ℕ
race = 0 ∷ 1 ∷ 0 ∷ 1 ∷ 0 ∷ []

abbrev raced : List ℕ
raced = 0 ∷ 1 ∷ 0 ∷ 1 ∷ 0 ∷ 1 ∷ 0 ∷ 0 ∷ 0 ∷ 1 ∷ []

abbrev thread : ℕ
thread = 0

raced_first : (after raced).pc 0 ≡ done 0
unfolding run turn advance usable unbuilt Store.is_empty Store.new Store.from
raced_first = refl

raced_second : (after raced).pc 1 ≡ done 0
unfolding run turn advance usable unbuilt Store.is_empty Store.new Store.from
raced_second = refl

race_inside : critical ((after race).pc 0) ≡ true
unfolding run turn advance usable unbuilt Store.is_empty Store.new Store.from
race_inside = refl

built_table : (after (race ++ 0 ∷ 0 ∷ [])).shared.table ≡ some 0
unfolding run turn advance usable unbuilt Store.is_empty Store.new Store.from
built_table = refl

run-exclusive_example : thread ≡ 0
run-exclusive_example =
    run-exclusive Store.new Store.is_empty 256 is_full race 0 0 race_inside race_inside

run-agree_example :
    (thread ≡ 0)
    × ((after raced).shared.table ≡ some 0)
    × ((after raced).shared.tables ≡ Store.new ∷ [])
run-agree_example =
    run-agree Store.new Store.is_empty 256 is_full raced 0 1 raced_first raced_second

run-finish_example : (after ((race ++ 0 ∷ 0 ∷ []) ++ (1 ∷ 0 ∷ 1 ∷ 1 ∷ 1 ∷ []))).pc 1 ≡ done 0
run-finish_example =
    run-finish Store.new Store.is_empty 256 is_full (race ++ 0 ∷ 0 ∷ []) (1 ∷ 0 ∷ 1 ∷ 1 ∷ 1 ∷ []) 1
      built_table (omega arith)

run-unblocked_example : (js : List ℕ) × ((after (race ++ js)).pc 1 ≡ done 0)
run-unblocked_example = run-unblocked Store.new Store.is_empty 256 is_full race 1
