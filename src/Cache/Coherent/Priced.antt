-- ===== src/Cache/Coherent/Priced.antt =====
-- Where each key has one price, the costs of the policy stay within its capacity.
use memory_cache_rust.Prelude.{
  ℕ, ◌≡◌, ◌∙◌, inl, inr, refl, sym, ap, Bool, true, false, List, none, some, ok, >>=-eq-ok,
  subst_ok, nat_eq, nat_beq, nat_beq_iff, Bool-cases, Option-cases, if◌then◌else◌, arith,
}
use mathlib.Core.Option.{some-injective}
use mathlib.Core.Path.{subst}
use memory_cache_rust.Prelude.Int.{ℤ, neg_part, ltb_ℤ, wrap_i64, wrap_i64-eq, wrap_i64-IsI64}
use memory_cache_rust.Prelude.HashMap.{HashMap, get, remove, get-insert, get-remove}
use memory_cache_rust.Item.{Item}
use memory_cache_rust.Policy
use memory_cache_rust.Policy.{DefaultPolicy, Least, victim, add, update}
use memory_cache_rust.Policy.Capacity.{add-Settled}
use memory_cache_rust.Policy.Ends.{Ends, add-Ends}
use memory_cache_rust.SampledLfu
use memory_cache_rust.SampledLfu.{SampledLfu, PolicyPair, update_if_has}
use memory_cache_rust.SampledLfu.Budget.{Budget, del-Deleted}
use memory_cache_rust.SampledLfu.Updates.{IsKept, update_if_has-same}

pub reported_new :
    (key : ℕ) (cost : ℤ) (s s' : SampledLfu)
    → get key s.key_costs ≡ none
    → update_if_has key cost s ≡ ok (true, s')
    → ⊥
unfolding update_if_has
reported_new key cost s s' new u =
    let e : ok (false, s) ≡ ok (true, s') = (rw (new, update_if_has) at u) in
    subst_ok (λ t. if t.0 then ⊥ else Unit) e tt

module _ (price : ℕ → ℤ) (m : ℤ) where
  -- Each cost is the key's price, and the capacity is `m`.
  abbrev pub HasPrices : SampledLfu → Type 0
  HasPrices s = ((k : ℕ) (v : ℤ) → get k s.key_costs ≡ some v → v ≡ price k) × (s.max_cost ≡ m)

  -- The costs are prices within the capacity.
  abbrev pub IsPriced : SampledLfu → Type 0
  IsPriced s = Budget s × HasPrices s

  kept-IsPriced : (s s' : SampledLfu) → IsKept s s' → IsPriced s → IsPriced s'
  kept-IsPriced s s' (c, u, n) (b, (prices, capacity)) = (
    record {
      valid = record { distinct = rw c b.valid.distinct; summed = rw (c, u) b.valid.summed };
      costs = rw c b.costs;
      bounded = rw (c, n) b.bounded;
      small = rw n b.small;
    },
    (λ k v e. prices k v (rw c at e), n ∙ capacity),
  )

  get-del :
      (key : ℕ) (s : SampledLfu) (k : ℕ) (v : ℤ)
      → get k (SampledLfu.del key s).key_costs ≡ some v
      → get k s.key_costs ≡ some v
  unfolding SampledLfu.del
  get-del key s k v e = elim (Option-cases (get key s.key_costs)) [
    | inl new ↦ (rw (new, SampledLfu.del) at e)
    | inr (w, found) ↦
        let e' : get k (remove key s.key_costs) ≡ some v = (rw (found, SampledLfu.del) at e) in
        ground (arith, e', get-remove key k s.key_costs)
  ]

  max_cost-del : (key : ℕ) (s : SampledLfu) → (SampledLfu.del key s).max_cost ≡ s.max_cost
  unfolding SampledLfu.del
  max_cost-del key s = elim (Option-cases (get key s.key_costs)) [
    | inl new ↦ rw (new, SampledLfu.del) refl
    | inr (w, found) ↦ rw (found, SampledLfu.del) refl
  ]

  del-HasPrices : (key : ℕ) (s : SampledLfu) → HasPrices s → HasPrices (SampledLfu.del key s)
  del-HasPrices key s (prices, capacity) =
      (λ k v e. prices k v (get-del key s k v e), max_cost-del key s ∙ capacity)

  pub del-IsPriced :
      (key : ℕ) (p : DefaultPolicy) → IsPriced p.evict → IsPriced (Policy.del key p).evict
  unfolding Policy.del
  del-IsPriced key p (b, h) = ((del-Deleted key p.evict b).budget, del-HasPrices key p.evict h)

  module _ (key : ℕ) (cost : ℤ) (fixed : cost ≡ price key) where
    -- The cost that a key of the policy has is the one that it is given again.
    pub same-price :
        (s : SampledLfu) (r : Bool × SampledLfu) (v : ℤ)
        → IsPriced s
        → get key s.key_costs ≡ some v
        → update_if_has key cost s ≡ ok r
        → (r.0 ≡ true) × IsKept s r.1
    same-price s r v (b, (prices, capacity)) found e =
        let same : v ≡ cost = prices key v found ∙ sym fixed in
        let wrapped : wrap_i64 s.used ≡ s.used =
          ap wrap_i64 b.valid.summed ∙ (wrap_i64-eq _ (wrap_i64-IsI64 _) ∙ sym b.valid.summed) in
        update_if_has-same key cost s r (found ∙ ap some same) wrapped e

    pub update-IsPriced :
        (p p' : DefaultPolicy) → IsPriced p.evict → update key cost p ≡ ok p' → IsPriced p'.evict
    unfolding update
    update-IsPriced p p' h e =
        let (u, asked, same) = >>=-eq-ok (update_if_has key cost p.evict) _ e in
        subst_ok (λ q. IsPriced q.evict) same
          (elim (Option-cases (get key p.evict.key_costs)) [
            | inl new ↦
                let asked' : ok (false, p.evict) ≡ ok u =
                  unfold update_if_has in (rw (new, update_if_has) at asked) in
                subst_ok (λ t. IsPriced t.1) asked' h
            | inr (v, found) ↦ kept-IsPriced p.evict u.1 (same-price p.evict u v h found asked).1 h
          ])

    module _ {V : Type 0} (order : HashMap ℕ ℤ → List PolicyPair) (fuel : ℕ) (p : DefaultPolicy)
        (r : DefaultPolicy × List (Item V) × Bool) (h : IsPriced p.evict) where
      -- Every cost after an addition is a price.
      Ends-HasPrices : Ends {V = V} (λ s vs. HasPrices s) key cost r → HasPrices r.0.evict
      unfolding SampledLfu.add
      Ends-HasPrices (s, (prices, capacity), same) = elim (Bool-cases r.2) [
        | inl added ↦
            let state : r.0.evict ≡ SampledLfu.add key cost s = (rw added at same) in
            subst HasPrices (sym state) (
              λ k v e. elim (Bool-cases (nat_beq key k)) [
                | inl q ↦
                    let new : some cost ≡ some v = (rw (get-insert, q) at e) in
                    sym (some-injective _ _ new) ∙ (fixed ∙ ap price ((nat_beq_iff key k).0 q))
                | inr q ↦ prices k v (rw (get-insert, q) at e)
              ],
              capacity,
            )
        | inr refused ↦
            let state : r.0.evict ≡ s = (rw refused at same) in
            subst HasPrices (sym state) (prices, capacity)
      ]

      -- An addition of a key with a cost changes nothing.
      known-IsPriced :
          (v : ℤ)
          → get key p.evict.key_costs ≡ some v
          → add order fuel key cost p ≡ ok r
          → IsPriced r.0.evict
      unfolding add
      known-IsPriced v found e = elim (Bool-cases (ltb_ℤ p.evict.max_cost cost)) [
        | inl big ↦ subst_ok (λ t. IsPriced t.0.evict) (rw big at e) h
        | inr fits ↦
            let (u, asked, rest) = >>=-eq-ok (update_if_has key cost p.evict) _ (rw fits at e) in
            let (known, kept) = same-price p.evict u v h found asked in
            subst_ok (λ t. IsPriced t.0.evict) (rw known at rest) (kept-IsPriced p.evict u.1 kept h)
      ]

      pub add-IsPriced :
          neg_part (price key) ≡ 0 → add order fuel key cost p ≡ ok r → IsPriced r.0.evict
      add-IsPriced nonneg e = elim (Option-cases (get key p.evict.key_costs)) [
        | inr (v, found) ↦ known-IsPriced v found e
        | inl new ↦
            let settled = add-Settled order key cost (rw fixed nonneg) fuel p r h.0 new e in
            let never : (s : SampledLfu)
                → update_if_has key cost p.evict ≡ ok (true, s)
                → HasPrices s =
              λ s u. absurd (not_known s u new) in
            (
              settled.budget,
              Ends-HasPrices (
                  add-Ends (λ s vs. HasPrices s) key cost order
                    (λ least s vs. del-HasPrices least.min_key s) fuel p r h.1 never e),
            )
      ]
        where
          not_known :
              (s : SampledLfu)
              → update_if_has key cost p.evict ≡ ok (true, s)
              → get key p.evict.key_costs ≡ none
              → ⊥
          not_known s u new = reported_new key cost p.evict s new u
