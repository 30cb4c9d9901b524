-- ===== src/Cache/History.antt =====
-- Histories of calls on one cache of src/cache.rs, by one thread.
pub mod Answers
pub mod Sound
pub mod Timed
use memory_cache_rust.Prelude.{ℕ, Option, List, [], ◌∷◌, Run, ok, ◌>>=◌}
use memory_cache_rust.Prelude.Int.{ℤ}
use memory_cache_rust.Prelude.HashMap.{HashMap}
use memory_cache_rust.Cache
use memory_cache_rust.Cache.{Cache}
use memory_cache_rust.SampledLfu.{PolicyPair}

-- A call with its key's hashes, and with what the clock shows during it.
pub data Call (V : Type 0) : Type 0 where
  get_call : ℕ → ℕ → ℕ → Call V
  set_call : Option ℕ → ℕ → ℕ → V → ℤ → ℕ → Call V
  del_call : ℕ → ℕ → Call V
  clean_call : ℕ → Call V

-- `order` and `items` are the orders in which the maps of the costs and of the due keys are iterated.
module _ {V : Type 0} (order : HashMap ℕ ℤ → List PolicyPair) (items : HashMap ℕ ℕ → List (ℕ × ℕ))
    (fuel : ℕ) where
  -- The cache after a call.
  unfoldable pub perform : Call V → Cache V → Run (Cache V)
  perform (get_call elapsed key conflict) c = Cache.get elapsed key conflict c >>= λ r. ok r.1
  perform (set_call clock key conflict value cost ttl) c =
      Cache.set_with_ttl order fuel clock key conflict value cost ttl c >>= λ r. ok r.1
  perform (del_call key conflict) c = Cache.del key conflict c
  perform (clean_call now) c = Cache.clean_up items now c

  unfoldable pub perform_all : List (Call V) → Cache V → Run (Cache V)
  perform_all [] c = ok c
  perform_all (call ∷ calls) c = perform call c >>= λ c'. perform_all calls c'
