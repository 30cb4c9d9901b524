-- ===== src/Cache/Total/Steady.antt =====
-- Additions and updates of the policy of src/policy.rs return, where all keys have one cost and nothing has been counted.
use memory_cache_rust.Prelude.{
  All, All-imp, ℕ, ◌+◌, ◌≡◌, ◌∙◌, sym, inl, inr, refl, true, false, Bool, List, [], none, some, ok,
  >>=-ok, subst_ok, Bool-cases, Option-cases, is_some, arith, nat_eq,
}
use mathlib.Core.Path.{subst}
use memory_cache_rust.Prelude.Int.{ℤ, ltb_ℤ, neg_part, ◌≤ℤ◌}
use memory_cache_rust.Prelude.HashMap.{HashMap, get}
use memory_cache_rust.Cache.Coherent.Priced.{IsPriced, update-IsPriced, add-IsPriced, del-IsPriced}
use memory_cache_rust.Item.{Item}
use memory_cache_rust.Metrics.{IsUnused}
use memory_cache_rust.Policy
use memory_cache_rust.Policy.{DefaultPolicy}
use memory_cache_rust.Policy.Enough.{add_quiet}
use memory_cache_rust.Policy.Kept.{add-IsAlike, add-unused, del-unused}
use memory_cache_rust.Policy.Samples.{IsOrder, entries_get}
use memory_cache_rust.SampledLfu.{SampledLfu, PolicyPair, update_if_has}
use memory_cache_rust.SampledLfu.Costs.{update_if_has_lem}
use memory_cache_rust.TinyLfu
use mathlib.Core.Option.{none-ne-some}

-- A common cost, and the capacity.
module _ (each m : ℤ) (nonneg : neg_part each ≡ 0) where
  -- The state of the policy along a history: all keys cost the same, and every estimate is 0.
  pub record IsSteady (p : DefaultPolicy) : Type 0 where
    pub priced : IsPriced (λ key. each) m p.evict
    pub quiet : (k : ℕ) → TinyLfu.estimate k p.admit ≡ ok 0
    pub noted : IsUnused p.evict.metrics

  none_cheaper : (p : DefaultPolicy) → IsSteady p → All (λ e. each ≤ℤ e.1) p.evict.key_costs
  none_cheaper p h =
      let (b, (prices, capacity)) = h.priced in
      All-imp (λ e. get e.0 p.evict.key_costs ≡ some e.1) (λ e. each ≤ℤ e.1) p.evict.key_costs
        (λ e found. let same : e.1 ≡ each = prices e.0 e.1 found in rw same (omega arith))
        (entries_get p.evict.key_costs b.valid.distinct)

  module _ (key : ℕ) (p : DefaultPolicy) (h : IsSteady p) where
    -- An update returns, and keeps the metrics.
    updated :
        (s : SampledLfu) × (update_if_has key each p.evict
          ≡ ok (is_some (get key p.evict.key_costs), s))
        × IsUnused s.metrics
    updated =
        let (s, run, v, costs, same, cap, noted) =
          update_if_has_lem key each p.evict h.priced.0.valid h.noted in
        (s, run, subst IsUnused (sym noted) h.noted)

    updated_as :
        (b : Bool) (s : SampledLfu)
        → update_if_has key each p.evict ≡ ok (b, s)
        → IsUnused s.metrics
    updated_as b s e =
        let (s', run, noted) = updated in subst_ok (λ t. IsUnused t.1.metrics) (sym run ∙ e) noted

    pub update-IsSteady : (q : DefaultPolicy) × (Policy.update key each p ≡ ok q) × IsSteady q
    unfolding Policy.update
    update-IsSteady =
        let (s, run, noted) = updated in
        let q : DefaultPolicy = record p { evict = s } in
        let asked : Policy.update key each p ≡ ok q = >>=-ok run _ in
        (
          q,
          asked,
          record {
            priced = update-IsPriced (λ key. each) m key each refl p q h.priced asked;
            quiet = h.quiet;
            noted = noted;
          },
        )

    pub del-IsSteady : IsSteady (Policy.del key p)
    unfolding Policy.del
    del-IsSteady = record {
      priced = del-IsPriced (λ key. each) m key p h.priced;
      quiet = h.quiet;
      noted = del-unused key p.evict h.noted;
    }

    module _ {V : Type 0} (order : HashMap ℕ ℤ → List PolicyPair) (visit : IsOrder order)
        (fuel : ℕ) where
      known-add :
          (v : ℤ)
          → get key p.evict.key_costs ≡ some v
          → (r : DefaultPolicy × List (Item V) × Bool) × (Policy.add order (fuel + 3) key each p
              ≡ ok r)
      unfolding Policy.add
      known-add v found = elim (Bool-cases (ltb_ℤ p.evict.max_cost each)) [
        | inl big ↦ ((p, [], false), rw big refl)
        | inr fits ↦
            let (s, run, noted) = updated in
            let run' : update_if_has key each p.evict ≡ ok (true, s) = (rw found at run) in
            ((record p { evict = s }, [], false), rw fits (>>=-ok run' _))
      ]

      big-add :
          ltb_ℤ p.evict.max_cost each ≡ true
          → Policy.add {V = V} order (fuel + 3) key each p ≡ ok (p, [], false)
      unfolding Policy.add
      big-add big = rw big refl

      -- An addition returns, and a new key with a cost that fits the capacity then has it.
      some_add :
          (r : DefaultPolicy × List (Item V) × Bool) × (Policy.add order (fuel + 3) key each p
            ≡ ok r)
          × (get key p.evict.key_costs ≡ none
              → each ≤ℤ m
              → is_some (get key r.0.evict.key_costs) ≡ true)
      some_add = elim (Option-cases (get key p.evict.key_costs)) [
        | inr (v, found) ↦
            let (r, run) = known-add v found in
            (r, run, λ new fits. absurd (none-ne-some v (sym new ∙ found)))
        | inl new ↦ elim (Bool-cases (ltb_ℤ p.evict.max_cost each)) [
          | inl big ↦
              (_, big-add big, λ absent fits. absurd (ground (arith, (rw capacity at big), fits)))
          | inr roomy ↦
              let (r, run, added, settled) =
                add_quiet order visit key each nonneg fuel p h.priced.0 h.quiet new
                  (ground (arith, roomy)) (none_cheaper p h) in
              (r, run, λ absent fits. rw (settled.present, added) refl)
        ]
      ]
        where
          capacity : p.evict.max_cost ≡ m
          capacity = h.priced.1.1

      pub add-IsSteady :
          (r : DefaultPolicy × List (Item V) × Bool) × (Policy.add order (fuel + 3) key each p
            ≡ ok r)
          × IsSteady r.0
          × (get key p.evict.key_costs ≡ none
              → each ≤ℤ m
              → is_some (get key r.0.evict.key_costs) ≡ true)
      add-IsSteady =
          let (r, run, added) = some_add in
          let (admit, same) = add-IsAlike order key each (fuel + 3) p r run in
          (
            r,
            run,
            record {
              priced =
                  add-IsPriced (λ key. each) m key each refl order (fuel + 3) p r h.priced nonneg
                    run;
              quiet = λ k. rw admit (h.quiet k);
              noted = add-unused order key each (fuel + 3) p r h.noted (updated_as true) run;
            },
            added,
          )
