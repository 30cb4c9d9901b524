-- ===== src/Cache/Init.antt =====
-- `init_store` and `init_ringbuf` of src/cache.rs, run by any number of threads: a thread that finds no table takes
-- `size_ctl` by a compare-exchange to -1, looks again, builds the table, and puts `size_ctl` back. The threads
-- share the pointer and `size_ctl`, and every access is sequentially consistent; a table is boxed at the next
-- address of `tables`, which nothing frees while the cache lives.
pub mod Free
pub mod Lock
pub mod Safe
pub mod Wait
use memory_cache_rust.Prelude.{
  ℕ, ◌-◌, ◌/◌, Bool, true, false, List, [], ◌∷◌, ◌++◌, Option, none, some, if◌then◌else◌, ltb,
  nat_beq, get_elem?, length,
}
use memory_cache_rust.Prelude.Int.{ℤ, pos, negsuc, int_beq}
use memory_cache_rust.Metrics.{do_not_use}
use memory_cache_rust.Ring
use memory_cache_rust.Ring.{RingStripe}
use memory_cache_rust.Store
use memory_cache_rust.Store.{Store}

pub record Shared (T : Type 0) : Type 0 where
  pub table : Option ℕ
  pub size_ctl : ℤ
  pub tables : List T

-- Where a thread stands: before the first load of the pointer, the load of `size_ctl`, the exchange of its value,
-- the second load of the pointer, the construction, the store to `size_ctl`, and after the loop. The value of
-- `size_ctl` that a thread keeps is not negative.
pub data Pc : Type 0 where
  load_table : Pc
  load_ctl : Pc
  exchange : ℕ → Pc
  reload : ℕ → Pc
  build : ℕ → Pc
  release : ℕ → ℕ → Pc
  done : ℕ → Pc

pub record Threads (T : Type 0) : Type 0 where
  pub shared : Shared T
  pub pc : ℕ → Pc

-- `load_factor!`.
unfoldable pub load_factor : ℕ → ℕ
load_factor n = n - n / 4

-- `make` builds a table, `is_empty` is its method, and `fallback` is the size where `size_ctl` is 0.
module _ {T : Type 0} (make : T) (is_empty : T → Bool) (fallback : ℕ) where
  -- The pointer, unless it is null or its table is empty.
  unfoldable pub usable : Shared T → Option ℕ
  usable m = elim m.table [
    | none ↦ none
    | some a ↦ elim (get_elem? m.tables a) [
      | none ↦ none
      | some t ↦ if is_empty t then none else some a
    ]
  ]

  -- The next access of a thread.
  unfoldable pub advance : Shared T → Pc → Shared T × Pc
  unfolding usable load_factor
  advance m load_table = elim (usable m) [ none ↦ (m, load_ctl) | some a ↦ (m, done a) ]
  advance m load_ctl = elim m.size_ctl [ pos n ↦ (m, exchange n) | negsuc n ↦ (m, load_table) ]
  advance m (exchange n) =
      if int_beq m.size_ctl (pos n)
      then (record m { size_ctl = negsuc 0 }, reload n)
      else (m, load_table)
  advance m (reload n) = elim (usable m) [ none ↦ (m, build n) | some a ↦ (m, release n a) ]
  advance m (build n) = (
    record m { table = some (length m.tables); tables = m.tables ++ (make ∷ []) },
    release (load_factor (if ltb 0 n then n else fallback)) (length m.tables),
  )
  advance m (release n a) = (record m { size_ctl = pos n }, done a)
  advance m (done a) = (m, done a)

  -- Thread `i` makes its next access.
  unfoldable pub turn : ℕ → Threads T → Threads T
  unfolding advance
  turn i s =
      let r = advance s.shared (s.pc i) in
      record { shared = r.0; pc = λ j. if nat_beq i j then r.1 else s.pc j }

  -- The threads take turns as a schedule says.
  unfoldable pub run : List ℕ → Threads T → Threads T
  unfolding turn
  run [] s = s
  run (i ∷ is) s = run is (turn i s)

-- A null pointer, `size_ctl` as `with_hasher` leaves it, and every thread at the start of its loop.
unfoldable pub unbuilt : {T : Type 0} → Threads T
unbuilt = record {
  shared = record { table = none; size_ctl = pos 0; tables = [] };
  pc = λ i. load_table;
}

-- The threads of a cache in the loop of `init_store`.
abbrev pub init_store_threads : {V : Type 0} → List ℕ → Threads (Store V) → Threads (Store V)
init_store_threads is s = run Store.new Store.is_empty Store.num_shards is s

-- The threads of a cache in the loop of `init_ringbuf`, which asks of the pointer only whether it is null.
abbrev pub init_ringbuf_threads : ℕ → List ℕ → Threads RingStripe → Threads RingStripe
init_ringbuf_threads buffer_items is s = run (Ring.new buffer_items) (λ _. false) do_not_use is s
