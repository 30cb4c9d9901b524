-- ===== src/Policy.antt =====
-- `DefaultPolicy` of src/policy.rs: admission by frequency, eviction by cost. The lock has no model:
-- an operation is one step.
pub mod Scan
pub mod Loop
pub mod Diverge
pub mod Capacity
pub mod Ends
pub mod Samples
pub mod Rounds
pub mod Enough
pub mod Kept
use memory_cache_rust.Prelude.{
  ℕ, zero, suc, ◌+◌, ◌-◌, ◌^◌, Bool, true, false, List, [], ◌∷◌, ◌++◌, Option, none, some, ltb,
  if◌then◌else◌, Run, ok, panic, timeout, ◌>>=◌, length, set, get_elem?, nat_eq,
}
use memory_cache_rust.Prelude.Int.{ℤ, pos, negsuc, ◌-ℤ◌, ltb_ℤ, wrap_i64}
use memory_cache_rust.Prelude.HashMap
use memory_cache_rust.Prelude.HashMap.{HashMap}
use memory_cache_rust.Bloom.{Floats}
use memory_cache_rust.Item.{Item, item_new}
use memory_cache_rust.Metrics
use memory_cache_rust.Metrics.{Metrics, keep_gets}
use memory_cache_rust.SampledLfu
use memory_cache_rust.SampledLfu.{SampledLfu, PolicyPair}
use memory_cache_rust.TinyLfu
use memory_cache_rust.TinyLfu.{TinyLfu}

pub record DefaultPolicy : Type 0 where
  pub admit : TinyLfu
  pub evict : SampledLfu
  pub metrics : Option Metrics
  pub number_counters : ℤ
  pub max_cost : ℤ

unfoldable pub new : Floats → ℕ → ℤ → ℤ → Option Metrics → Run DefaultPolicy
new fl source number_counters max_cost metrics = do
  admit ← TinyLfu.new fl source number_counters
  ok (record {
    admit = admit;
    evict = SampledLfu.new max_cost metrics;
    metrics = metrics;
    number_counters = number_counters;
    max_cost = max_cost;
  })

unfoldable pub process_items : List ℕ → DefaultPolicy → Run DefaultPolicy
process_items items p = TinyLfu.push items p.admit >>= λ admit. ok (record p { admit = admit })

unfoldable pub push : List ℕ → DefaultPolicy → Run (Bool × DefaultPolicy)
unfolding process_items
push [] p = ok (true, p)
push (k ∷ ks) p = do
  p' ← process_items (k ∷ ks) p
  metrics ← elim p'.metrics [
    | none ↦ ok none
    | some m ↦ Metrics.add keep_gets k (length (k ∷ ks)) m >>= λ m'. ok (some m')
  ]
  ok (true, record p' { metrics = metrics })

-- The least frequent entry of a sample so far: the variables of the loop in `add`.
pub record Least : Type 0 where
  pub min_key : ℕ
  pub min_hits : ℕ
  pub min_id : ℕ
  pub min_cost : ℤ

abbrev pub no_least : Least
no_least = record { min_key = 0; min_hits = 2 ^ 63 - 1; min_id = 0; min_cost = pos 0 }

-- The loop over the sample, at index `i`.
unfoldable pub scan : TinyLfu → ℕ → List PolicyPair → Least → Run Least
scan admit i [] least = ok least
scan admit i ((key, cost) ∷ rest) least = do
  hits ← TinyLfu.estimate key admit
  scan admit (i + 1) rest (
      if ltb hits least.min_hits
      then record { min_key = key; min_hits = hits; min_id = i; min_cost = cost }
      else least)

-- `sample[min_id] = sample[sample.len() - 1]`: the sample keeps its length.
unfoldable pub drop_least : ℕ → List PolicyPair → Run (List PolicyPair)
drop_least min_id sample = elim (get_elem? sample (length sample - 1)) [
  | none ↦ panic
  | some e ↦ elim (get_elem? sample min_id) [ none ↦ panic | some _ ↦ ok (set sample min_id e) ]
]

-- The report of a rejected addition: the pointer is used only if it is null.
unfoldable pub reject : DefaultPolicy → Run (Option Metrics)
reject p = elim p.metrics [ none ↦ panic | some m ↦ ok (some m) ]

module _ {V : Type 0} where
  abbrev pub victim : Least → Item V
  victim least = record {
    flag = item_new;
    key = least.min_key;
    conflict = 0;
    value = none;
    cost = least.min_cost;
    expiration = none;
  }

  module _ (order : HashMap ℕ ℤ → List PolicyPair) where
    -- The loop of `add`, with fuel.
    unfoldable pub evict_loop :
        ℕ
        → ℕ
        → ℤ
        → ℕ
        → ℤ
        → List PolicyPair
        → List (Item V)
        → DefaultPolicy
        → Run (DefaultPolicy × List (Item V) × Bool)
    unfolding drop_least reject
    evict_loop zero key cost inc_hits room sample victims p = timeout
    evict_loop (suc fuel) key cost inc_hits room sample victims p =
        let round : Run (DefaultPolicy × List (Item V) × Bool) = (do
          let room' = SampledLfu.room_left cost p.evict
          let sample' = SampledLfu.fill_sample order p.evict sample
          least ← scan p.admit 0 sample' no_least
          let rejected : Run (DefaultPolicy × List (Item V) × Bool) =
              reject p >>= λ metrics. ok (record p { metrics = metrics }, victims, false)
          let p' : DefaultPolicy = record p { evict = SampledLfu.del least.min_key p.evict }
          let rest : Run (DefaultPolicy × List (Item V) × Bool) =
              drop_least least.min_id sample' >>= λ sample''.
              evict_loop fuel key cost inc_hits room' sample'' (victims ++ victim least ∷ []) p'
          if ltb inc_hits least.min_hits then rejected else rest) in
        if ltb_ℤ room (pos 0)
        then round
        else ok (record p { evict = SampledLfu.add key cost p.evict }, victims, true)

    -- `add` for a key that is not in the policy.
    unfoldable pub admit_new :
        ℕ → ℕ → ℤ → DefaultPolicy → Run (DefaultPolicy × List (Item V) × Bool)
    admit_new fuel key cost p =
        let room = SampledLfu.room_left cost p.evict in
        if ltb_ℤ room (pos 0)
        then (TinyLfu.estimate key p.admit >>= λ inc_hits.
            evict_loop fuel key cost inc_hits room [] [] p)
        else ok (record p { evict = SampledLfu.add key cost p.evict }, [], true)

    -- The report of a key above 200000, an empty line of output, has no model.
    unfoldable pub add : ℕ → ℕ → ℤ → DefaultPolicy → Run (DefaultPolicy × List (Item V) × Bool)
    unfolding admit_new
    add fuel key cost p =
        if ltb_ℤ p.evict.max_cost cost
        then ok (p, [], false)
        else (SampledLfu.update_if_has key cost p.evict >>= λ r.
            if r.0 then ok (record p { evict = r.1 }, [], false) else admit_new fuel key cost p)

unfoldable pub has : ℕ → DefaultPolicy → Bool
has key p = HashMap.contains_key key p.evict.key_costs

unfoldable pub del : ℕ → DefaultPolicy → DefaultPolicy
del key p = record p { evict = SampledLfu.del key p.evict }

unfoldable pub update : ℕ → ℤ → DefaultPolicy → Run DefaultPolicy
update key cost p = do
  (known, evict) ← SampledLfu.update_if_has key cost p.evict
  ok (record p { evict = evict })

-- `close` has an empty body.
unfoldable pub close : DefaultPolicy → DefaultPolicy
close p = p

unfoldable pub clear : DefaultPolicy → DefaultPolicy
clear p = record p { admit = TinyLfu.clear p.admit; evict = SampledLfu.clear p.evict }

unfoldable pub cost : ℕ → DefaultPolicy → ℤ
cost key p = elim (HashMap.get key p.evict.key_costs) [ none ↦ negsuc 0 | some v ↦ v ]

unfoldable pub cap : DefaultPolicy → ℤ
cap p = wrap_i64 (p.evict.max_cost -ℤ p.evict.used)
