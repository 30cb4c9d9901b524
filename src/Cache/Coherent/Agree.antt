-- ===== src/Cache/Coherent/Agree.antt =====
-- Every key of the store has its cost in the policy.
use memory_cache_rust.Prelude.{
  ℕ, ◌≡◌, inl, inr, refl, ap, sym, ◌∙◌, Bool, true, false, List, Option, none, some, ok, subst_ok,
  is_some, nat_eq, nat_beq, nat_beq_iff, Bool-cases, if◌then◌else◌, ◌&&◌, arith,
}
use mathlib.Core.Path.{subst}
use memory_cache_rust.Prelude.Int.{ℤ}
use memory_cache_rust.Prelude.HashMap.{HashMap, get}
use memory_cache_rust.Cache.{Cache, set_until, init_store}
use memory_cache_rust.Cache.Coherent.Costs.{IsAbsent, IsTracked, add-IsTracked, update-kept}
use memory_cache_rust.Cache.Evict.{listed, view-Changed}
use memory_cache_rust.Cache.History.Sound.{IsHealthy, store_of-Stocked}
use memory_cache_rust.Cache.Writes.{store_of, set_until_known, set_until_new}
use memory_cache_rust.Cache.Writes.Asks.{known-asks, unknown-asks}
use memory_cache_rust.Item.{Item, Node}
use memory_cache_rust.Policy.{DefaultPolicy}
use memory_cache_rust.SampledLfu.{PolicyPair}
use memory_cache_rust.Store.{Store}
use memory_cache_rust.Store.Reads.{view-new}
use memory_cache_rust.Store.Refine.{matches, admits}
use memory_cache_rust.Store.View.{view}

module _ {V : Type 0} where
  -- What the cache holds at a key.
  abbrev pub stored : ℕ → Option (Store V) → Option (Node V)
  stored j none = none
  stored j (some s) = view s j

  -- A key without a cost is not in the store.
  abbrev pub IsCoherent : DefaultPolicy → Option (Store V) → Type 0
  IsCoherent p o = (j : ℕ) → IsAbsent j p.evict → stored j o ≡ none

  new_or-stored :
      (o : Option (Store V)) (j : ℕ)
      → view (elim o [ none ↦ init_store none | some s ↦ s ]) j ≡ stored j o
  unfolding init_store
  new_or-stored none j = view-new j
  new_or-stored (some s) j = refl

  pub store_of-stored : (c : Cache V) (j : ℕ) → view (store_of c) j ≡ stored j c.store
  store_of-stored c j = new_or-stored c.store j

  stays_out :
      (a b d : Bool) (new old : Option (Node V))
      → (a && d) ≡ false
      → old ≡ none
      → (if a && b && d then new else old) ≡ none
  stays_out a b d new old h e = ground (arith, h, e)

  -- A key that has a cost is no key without one.
  not_present :
      (key j : ℕ) (r : DefaultPolicy × List (Item V) × Bool)
      → (r.2 ≡ true → is_some (get key r.0.evict.key_costs) ≡ true)
      → IsAbsent j r.0.evict
      → (r.2 && nat_beq key j) ≡ false
  not_present key j r present gone = elim (Bool-cases (nat_beq key j)) [
    | inr q ↦ ground (arith, q)
    | inl q ↦
        let same : key ≡ j = (nat_beq_iff key j).0 q in
        elim (Bool-cases r.2) [
          | inr quiet ↦ ground (arith, quiet)
          | inl reported ↦
              let there : is_some (get j r.0.evict.key_costs) ≡ true =
                subst (λ i. is_some (get i r.0.evict.key_costs) ≡ true) same (present reported) in
              let bad : true ≡ false = sym there ∙ ap is_some gone in absurd (ground (arith, bad))
        ]
  ]

  module _ (order : HashMap ℕ ℤ → List PolicyPair) (fuel key conflict : ℕ) (value : V) (cost : ℤ)
      (ttl : ℕ) (c c' : Cache V) (b : Bool) (h : IsHealthy c) (k : IsCoherent c.policy c.store)
      (e : set_until order fuel key conflict value cost ttl c ≡ ok (b, c')) where
    was_none : (j : ℕ) → IsAbsent j c.policy.evict → view (store_of c) j ≡ none
    was_none j gone = store_of-stored c j ∙ k j gone

    pub known-Coherent :
        matches conflict (view (store_of c) key) ≡ true → IsCoherent c'.policy c'.store
    known-Coherent known =
        let w = store_of-Stocked c h in
        let (p, asked) = known-asks order fuel key conflict value cost ttl c w (b, c') e known in
        let (s, run, w', ch) =
          set_until_known order fuel key conflict value cost ttl c p w known asked in
        subst_ok (λ r. IsCoherent r.1.policy r.1.store) (sym run ∙ e)
          (λ j gone.
            let before = was_none j (update-kept key cost c.policy p asked j gone) in
            view-Changed key _ (store_of c) s j ch ∙ elim (Bool-cases (nat_beq key j)) [
              | inl q ↦
                  let known' : matches conflict (view (store_of c) j) ≡ true =
                    subst (λ i. matches conflict (view (store_of c) i) ≡ true)
                      ((nat_beq_iff key j).0 q) known in
                  let bad : true ≡ false = sym known' ∙ ap (matches conflict) before in
                  absurd (ground (arith, bad))
              | inr q ↦ rw q before
            ])

    pub unknown-Coherent :
        matches conflict (view (store_of c) key) ≡ false → IsCoherent c'.policy c'.store
    unknown-Coherent unknown =
        let w = store_of-Stocked c h in
        let ((p, victims, added), asked) =
          unknown-asks order fuel key conflict value cost ttl c w (b, c') e unknown in
        let tracked : IsTracked c.policy.evict key (p, victims, added) =
          add-IsTracked order fuel key cost c.policy (p, victims, added) asked in
        let (s, run, w', same) =
          set_until_new order fuel key conflict value cost ttl c p victims added w h.metered unknown
            asked in
        subst_ok (λ r. IsCoherent r.1.policy r.1.store) (sym run ∙ e)
          (λ j gone. same j ∙ elim (tracked.lost j gone) [
            | inl l ↦ rw l refl
            | inr before ↦ elim (Bool-cases (listed j victims)) [
              | inl l ↦ rw l refl
              | inr l ↦
                  let out = not_present key j (p, victims, added) tracked.present gone in
                  rw l (
                    stays_out added (admits conflict (view (store_of c) key)) (nat_beq key j) _ _
                      out (was_none j before))
            ]
          ])
