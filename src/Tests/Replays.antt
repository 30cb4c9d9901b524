-- ===== src/Tests/Replays.antt =====
-- Histories of calls for integer keys on a new cache.
use memory_cache_rust.Prelude.{
  ℕ, ◌≡◌, ◌⊎◌, refl, true, false, List, [], ◌∷◌, none, some, ok, panic, arith, is_some,
  if◌then◌else◌, All,
}
use memory_cache_rust.Prelude.Int.{pos, ◌≤ℤ◌}
use memory_cache_rust.Prelude.HashMap.{HashMap}
use memory_cache_rust.Bloom
use memory_cache_rust.Bloom.{Floats}
use memory_cache_rust.Cache
use memory_cache_rust.Cache.{Cache, Config, with_hasher, set_with_ttl}
use memory_cache_rust.Cache.Coherent.Agree.{stored}
use memory_cache_rust.Cache.Coherent.Charged.{IsFixed}
use memory_cache_rust.Cache.History.{Call, get_call, set_call, del_call, clean_call, perform_all}
use memory_cache_rust.Cache.Replay.{IsInteger, replay_all}
use memory_cache_rust.Cache.Replay.Along.{history-replay}
use memory_cache_rust.Cache.Replay.Whole.{history-whole}
use memory_cache_rust.Cache.Total.Recent.{history-recent}
use memory_cache_rust.Cache.Total.Whole.{history-decided, history-running}
use memory_cache_rust.Cache.Total.{well_placed}
use memory_cache_rust.Policy
use memory_cache_rust.Ring.{refilled}
use memory_cache_rust.SampledLfu.Costs.{total}
use memory_cache_rust.Store.Reads.{shown}
use memory_cache_rust.Tests.Data.{in_order, in_order-IsOrder}

-- A filter of 512 bits with one location.
abbrev pub floats : Floats
floats = record {
  F = ℕ;
  lit = λ digits places. digits;
  neg = λ x. x;
  mul = λ x y. x;
  div = λ x y. x;
  powf = λ x y. x;
  ln = λ x. x;
  ceil = λ x. x;
  lt = λ x y. false;
  to_u64 = λ x. x;
  of_i64 = λ z. 512;
}

abbrev config : Config
config = record { numb_counters = pos 16; max_cost = pos 2; buffer_items = 2; metrics = false }

abbrev due : HashMap ℕ ℕ → List (ℕ × ℕ)
due m = m

-- Two insertions, which fit the capacity together, one for less than a millisecond, and a deletion.
abbrev calls : List (Call ℕ)
calls =
    get_call 0 7 0
    ∷ set_call none 7 0 40 (pos 1) 0
    ∷ set_call (some 5_000_000) 263 0 50 (pos 1) 999_999
    ∷ get_call 0 7 0
    ∷ del_call 7 0
    ∷ clean_call 5
    ∷ []

calls-IsFixed : All (IsFixed (λ key. pos 1)) calls
calls-IsFixed = (tt, (refl, (refl, (tt, (tt, (tt, tt))))))

calls-IsInteger : All IsInteger calls
calls-IsInteger = (refl, (refl, (refl, (refl, (refl, (tt, tt))))))

ran :
    (c : Cache ℕ) × (with_hasher floats 5 config ≡ ok c)
    × ((c' : Cache ℕ) × (perform_all in_order due 3 calls c ≡ ok c'))
unfolding Bloom.entries_and_locs
ran =
    let (c, made, (c', run, h, k)) =
      history-running floats 16 5 config (omega arith) (omega arith) (omega arith) (omega arith)
        refl (pos 1) refl refl (omega arith) in_order in_order-IsOrder due refl 0 calls
        calls-IsFixed refl in
    (c, made, (c', run))

history-decided_example :
    (c : Cache ℕ) × (with_hasher floats 5 config ≡ ok c)
    × (((well_placed false calls ≡ true)
          × ((c' : Cache ℕ) × (perform_all in_order due 3 calls c ≡ ok c')
              × (total c'.policy.evict.key_costs ≤ℤ pos 2)))
        ⊎ ((well_placed false calls ≡ false) × (perform_all in_order due 3 calls c ≡ panic)))
unfolding Bloom.entries_and_locs
history-decided_example =
    history-decided floats 16 5 config (omega arith) (omega arith) (omega arith) (omega arith) refl
      (pos 1) refl refl (omega arith) in_order in_order-IsOrder due refl 0 calls calls-IsFixed

history-replay_example :
    (stored 263 ran.2.0.store
      ≡ (if Policy.has 263 ran.2.0.policy then replay_all calls (λ j. none) 263 else none))
    × (is_some (stored 263 ran.2.0.store) ≡ Policy.has 263 ran.2.0.policy)
    × (Cache.get 1 263 0 ran.2.0
        ≡ ok (
          if Policy.has 263 ran.2.0.policy
              then shown 1 0 (replay_all calls (λ j. none) 263)
              else none,
          record ran.2.0 { get_buf = refilled ran.2.0.get_buf },
        ))
history-replay_example =
    history-replay in_order in_order-IsOrder due refl 3 floats 5 config calls ran.0 ran.2.0
      calls-IsInteger ran.1 ran.2.1 1 263

history-whole_example :
    ((well_placed false calls ≡ true)
      × ((c' : Cache ℕ) × (perform_all in_order due 3 calls ran.0 ≡ ok c')
          × (stored 263 c'.store ≡ replay_all calls (λ j. none) 263)
          × (Cache.get 1 263 0 c'
              ≡ ok (
                shown 1 0 (replay_all calls (λ j. none) 263),
                record c' { get_buf = refilled c'.get_buf },
              ))))
    ⊎ ((well_placed false calls ≡ false) × (perform_all in_order due 3 calls ran.0 ≡ panic))
history-whole_example =
    history-whole in_order in_order-IsOrder due refl 3 (λ key. pos 1) (λ key. refl) floats 5 config
      refl (omega arith) calls ran.0 calls-IsInteger calls-IsFixed (omega arith) ran.1 1 263

-- Two insertions, which fill the capacity.
abbrev filled : List (Call ℕ)
filled = set_call none 7 0 40 (pos 1) 0 ∷ set_call none 263 0 50 (pos 1) 0 ∷ []

-- A third key, for which there is no room without an eviction.
history-recent_example :
    (c : Cache ℕ) × (with_hasher floats 5 config ≡ ok c)
    × ((c' : Cache ℕ) × (perform_all in_order due 3 filled c ≡ ok c')
        × ((c'' : Cache ℕ) × (set_with_ttl in_order 3 none 9 0 60 (pos 1) 0 c' ≡ ok (true, c''))
            × (Cache.get 1 9 0 c'' ≡ ok (some 60, record c'' { get_buf = refilled c''.get_buf }))))
unfolding Bloom.entries_and_locs
history-recent_example =
    history-recent floats 16 5 config (omega arith) (omega arith) (omega arith) (omega arith) refl
      (pos 1) refl refl (omega arith) in_order in_order-IsOrder due refl 0 filled (refl, (refl, tt))
      (refl, (refl, tt)) refl (omega arith) none 9 60 0 1 refl (omega arith)
