-- ===== src/Cache/Total.antt =====
-- Which histories of calls on one cache of src/cache.rs return.
pub mod Steady
pub mod Along
pub mod Whole
pub mod Recent
use memory_cache_rust.Prelude.{Bool, true, ◌&&◌, List, [], ◌∷◌}
use memory_cache_rust.Cache.Expiry.{timely}
use memory_cache_rust.Cache.History.{Call, get_call, set_call, del_call, clean_call}

-- No deletion and no clean-up comes before the store is built, by an insertion or before the calls, and the clock
-- answers where an insertion's time to live is above 0 and below a millisecond, with a sum that is a duration.
abbrev pub well_placed : {V : Type 0} → Bool → List (Call V) → Bool
well_placed built [] = true
well_placed built (get_call elapsed key conflict ∷ calls) = well_placed built calls
well_placed built (set_call clock key conflict value cost ttl ∷ calls) =
    timely clock ttl && well_placed true calls
well_placed built (del_call key conflict ∷ calls) = built && well_placed built calls
well_placed built (clean_call now ∷ calls) = built && well_placed built calls
