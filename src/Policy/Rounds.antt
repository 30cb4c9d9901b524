-- ===== src/Policy/Rounds.antt =====
-- The rounds of the eviction loop of `DefaultPolicy::add` in src/policy.rs, on a sample that is not empty.
use memory_cache_rust.Prelude.{
  ℕ, suc, ◌+◌, ◌-◌, ◌≤◌, ◌<◌, ◌≡◌, ◌⊎◌, refl, ◌∙◌, Bool, true, false, List, [], ◌∷◌, ◌++◌, none,
  some, ltb, nat_eq, ok, Run, ◌^◌, >>=-ok, arith, length, All, All-imp, Bool-cases, inl, inr,
}
use memory_cache_rust.Prelude.Int.{ℤ, pos, ltb_ℤ, ◌≤ℤ◌, neg_part}
use memory_cache_rust.Prelude.HashMap.{HashMap, get}
use memory_cache_rust.Item.{Item}
use memory_cache_rust.Metrics.{Metrics}
use memory_cache_rust.Policy.Loop.{
  evict_loop_step, evict_loop_reject, evict_loop_exit, without, add-admit_new,
}
use memory_cache_rust.Policy.Scan.{Rated, scan-Found, drop_least-All, fill_sample-All}
use memory_cache_rust.TinyLfu
use memory_cache_rust.Policy.{
  DefaultPolicy, Least, no_least, scan, victim, evict_loop, admit_new, add,
}
use memory_cache_rust.SampledLfu
use memory_cache_rust.SampledLfu.Budget.{Budget}
use memory_cache_rust.SampledLfu.{PolicyPair, SampledLfu, fill_from, fill_sample, room_left}
use memory_cache_rust.Policy.Samples.{
  All-trivial, IsOrder, entries_get, fill_sample-lt, get-le, roomy_without, some_cost,
}

-- Each key has an estimate of at most `bound`.
abbrev pub IsRated : ℕ → DefaultPolicy → Type 0
IsRated bound p = (k : ℕ) → (h : ℕ) × (TinyLfu.estimate k p.admit ≡ ok h) × (h ≤ bound)

-- There are metrics to report a rejection to, or none comes.
abbrev IsAnswered : ℕ → ℕ → DefaultPolicy → Type 0
IsAnswered bound hits p = ((m : Metrics) × (p.metrics ≡ some m)) ⊎ (bound ≤ hits)

-- Without metrics no estimate may be above 0.
abbrev IsHeard : ℕ → DefaultPolicy → Type 0
IsHeard bound p = ((m : Metrics) × (p.metrics ≡ some m)) ⊎ (bound ≡ 0)

heard : (bound hits : ℕ) (p : DefaultPolicy) → IsHeard bound p → IsAnswered bound hits p
heard bound hits p (inl m) = inl m
heard bound hits p (inr zero_is) = inr (omega (arith, zero_is))

module _ {V : Type 0} (order : HashMap ℕ ℤ → List PolicyPair) (visit : IsOrder order) (key : ℕ)
    (cost : ℤ) (nonneg : neg_part cost ≡ 0) (bound : ℕ) (small : bound < 2 ^ 63 - 1) where
  -- The run returns, and reports an addition where no estimate is above `hits`.
  abbrev Returns : ℕ → Run (DefaultPolicy × List (Item V) × Bool) → Type 0
  Returns hits run =
      (r : DefaultPolicy × List (Item V) × Bool) × (run ≡ ok r) × (bound ≤ hits → r.2 ≡ true)

  module _ (inc_hits : ℕ) where
    rejected-Returns :
        (fuel : ℕ) (room : ℤ) (sample : List PolicyPair) (least : Least) (victims : List (Item V))
        (p : DefaultPolicy)
        → ltb_ℤ room (pos 0) ≡ true
        → scan p.admit 0 (fill_sample order p.evict sample) no_least ≡ ok least
        → ltb inc_hits least.min_hits ≡ true
        → least.min_hits ≤ bound
        → IsAnswered bound inc_hits p
        → Returns inc_hits (evict_loop order (suc fuel) key cost inc_hits room sample victims p)
    rejected-Returns fuel room sample least victims p lacking scanned rejected le
          (inl (m, metered)) =
        (
          _,
          evict_loop_reject order key cost inc_hits fuel room sample least victims p m lacking
              scanned rejected metered,
          λ q. absurd (ground (arith, rejected, le, q)),
        )
    rejected-Returns fuel room sample least victims p lacking scanned rejected le (inr q) =
        absurd (ground (arith, rejected, le, q))

    -- A round whose sample is not empty rejects the key or evicts a pair of the sample.
    round-Returns :
        (P : PolicyPair → Type 0) (fuel : ℕ) (room : ℤ) (sample : List PolicyPair)
        (victims : List (Item V)) (p : DefaultPolicy)
        → ltb_ℤ room (pos 0) ≡ true
        → IsRated bound p
        → IsAnswered bound inc_hits p
        → All P (fill_sample order p.evict sample)
        → 0 < length (fill_sample order p.evict sample)
        → ((k : ℕ) (v : ℤ) (sample' : List PolicyPair) (victims' : List (Item V))
            → P (k, v)
            → 0 < length sample'
            → Returns inc_hits (
                evict_loop order fuel key cost inc_hits
                  (room_left cost p.evict)
                  sample'
                  victims'
                  (without k p)))
        → Returns inc_hits (evict_loop order (suc fuel) key cost inc_hits room sample victims p)
    round-Returns P fuel room sample victims p lacking rates answered a nonempty next =
        let filled = fill_sample order p.evict sample in
        let rated = All-imp P (Rated P p.admit bound) filled (λ e h. (h, rates e.0)) a in
        let (least, scanned, found) = scan-Found P p.admit bound filled rated nonempty small in
        elim (Bool-cases (ltb inc_hits least.min_hits)) [
          | inl rejected ↦
              rejected-Returns fuel room sample least victims p lacking scanned rejected found.hits
                answered
          | inr chosen ↦
              let (sample', dropped, len, kept) = drop_least-All P least.min_id filled found.id a in
              let (r, run, added) =
                next least.min_key least.min_cost sample' (victims ++ victim least ∷ []) found.holds
                  (omega (arith, nonempty, len)) in
              (
                r,
                evict_loop_step order key cost inc_hits fuel room sample sample' least victims p
                      lacking scanned chosen dropped
                    ∙ run,
                added,
              )
        ]

    loop-Returns :
        (fuel : ℕ) (p : DefaultPolicy)
        → Budget p.evict
        → IsRated bound p
        → IsAnswered bound inc_hits p
        → cost ≤ℤ p.evict.max_cost
        → All (λ e. cost ≤ℤ e.1) p.evict.key_costs
        → ltb_ℤ (room_left cost p.evict) (pos 0) ≡ true
        → Returns inc_hits (
            evict_loop order
              (suc (suc (suc fuel)))
              key
              cost
              inc_hits
              (room_left cost p.evict)
              []
              []
              p)
    loop-Returns fuel p w rates answered le dear lacking =
        let some_key =
          visit.some_visit p.evict.key_costs (some_cost cost p.evict w nonneg le lacking) in
        let Resident : PolicyPair → Type 0 = λ e. get e.0 p.evict.key_costs ≡ some e.1 in
        let Any : PolicyPair → Type 0 = λ e. Unit in
        round-Returns Resident (suc (suc fuel)) (room_left cost p.evict) [] [] p lacking rates
          answered
          (fill_sample-All Resident order p.evict []
            (visit.visits Resident p.evict.key_costs
              (entries_get p.evict.key_costs w.valid.distinct))
            tt)
          (fill_sample-lt order p.evict [] (omega (arith, some_key)))
          (λ k v sample victims here more.
            let p' = without k p in
            let roomy =
              roomy_without cost p k v nonneg w le (get-le cost k v p.evict.key_costs dear here)
                here in
            round-Returns Any (suc fuel) (room_left cost p.evict) sample victims p' lacking rates
              answered (All-trivial (fill_sample order p'.evict sample))
              (fill_sample-lt order p'.evict sample (omega (arith, more)))
              (λ k' v' sample' victims' any more'. (
                _,
                evict_loop_exit order key cost inc_hits fuel (room_left cost p'.evict) sample'
                    victims' (without k' p') roomy,
                λ q. refl,
              )))

  admitted :
      (fuel : ℕ) (p : DefaultPolicy)
      → Budget p.evict
      → IsRated bound p
      → IsHeard bound p
      → cost ≤ℤ p.evict.max_cost
      → All (λ e. cost ≤ℤ e.1) p.evict.key_costs
      → Returns 0 (admit_new order (suc (suc (suc fuel))) key cost p)
  unfolding admit_new
  admitted fuel p w rates metered le dear =
      elim (Bool-cases (ltb_ℤ (room_left cost p.evict) (pos 0))) [
        | inr roomy ↦ (
          (record p { evict = SampledLfu.add key cost p.evict }, [], true),
          rw roomy refl,
          λ q. refl,
        )
        | inl lacking ↦
            let (inc_hits, est, high) = rates key in
            let (r, run, added) =
              loop-Returns inc_hits fuel p w rates (heard bound inc_hits p metered) le dear
                lacking in
            (r, rw lacking (>>=-ok est _ ∙ run), λ q. added (omega (arith, q)))
      ]

  pub add_run :
      (fuel : ℕ) (p : DefaultPolicy)
      → Budget p.evict
      → IsRated bound p
      → IsHeard bound p
      → get key p.evict.key_costs ≡ none
      → All (λ e. cost ≤ℤ e.1) p.evict.key_costs
      → (r : DefaultPolicy × List (Item V) × Bool) × (add order (fuel + 3) key cost p ≡ ok r)
        × (bound ≡ 0 → cost ≤ℤ p.evict.max_cost → r.2 ≡ true)
  unfolding add
  add_run fuel p w rates metered absent dear = elim (Bool-cases (ltb_ℤ p.evict.max_cost cost)) [
    | inl big ↦ ((p, [], false), rw (big, add) refl, λ z le. absurd (ground (arith, big, le)))
    | inr fits ↦
        let le : cost ≤ℤ p.evict.max_cost = ground arith in
        let e : fuel + 3 ≡ suc (suc (suc fuel)) = omega arith in
        let (r, run, added) = admitted fuel p w rates metered le dear in
        (
          r,
          add-admit_new order (fuel + 3) key cost p absent le ∙ rw e run,
          λ z le'. added (omega (arith, z)),
        )
  ]
