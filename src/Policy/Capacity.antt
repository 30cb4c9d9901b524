-- ===== src/Policy/Capacity.antt =====
-- `DefaultPolicy::add` of src/policy.rs: the costs against the capacity.
use memory_cache_rust.Prelude.{
  ℕ, zero, suc, ◌≡◌, sym, ◌∙◌, Bool, true, false, List, [], ◌∷◌, ◌++◌, none, some, ltb,
  if◌then◌else◌, nat_eq, ok, ◌>>=◌, arith, Bool-cases, inl, inr, >>=-eq-ok, subst_ok,
}
use memory_cache_rust.Prelude.Int.{ℤ, pos, ltb_ℤ, ◌≤ℤ◌, ◌+ℤ◌, neg_part, +ℤ_parts}
use memory_cache_rust.Prelude.HashMap.{HashMap, get, get-insert, get-remove}
use memory_cache_rust.Item.{Item}
use memory_cache_rust.Policy.Loop.{without, room_left_le, add-admit_new}
use memory_cache_rust.Policy.{
  DefaultPolicy, no_least, scan, drop_least, reject, victim, evict_loop, admit_new, add,
}
use memory_cache_rust.SampledLfu
use memory_cache_rust.SampledLfu.Budget.{Budget, del-Deleted, add-Budget}
use memory_cache_rust.SampledLfu.Costs.{total}
use memory_cache_rust.SampledLfu.{PolicyPair, fill_sample, room_left}
use memory_cache_rust.TinyLfu

-- The result of an addition: the costs fit the capacity, and the key is there with its cost exactly
-- if it was added.
pub record Settled {V : Type 0} (key : ℕ) (cost : ℤ) (r : DefaultPolicy × List (Item V) × Bool)
    : Type 0 where
  pub budget : Budget r.0.evict
  pub present : get key r.0.evict.key_costs ≡ (if r.2 then some cost else none)

get-add :
    (key : ℕ) (cost : ℤ) (s : SampledLfu.SampledLfu)
    → get key (SampledLfu.add key cost s).key_costs ≡ some cost
unfolding SampledLfu.add
get-add key cost s = rw get-insert (ground arith)

module _ {V : Type 0} (order : HashMap ℕ ℤ → List PolicyPair) (key : ℕ) (cost : ℤ)
    (nonneg : neg_part cost ≡ 0) where
  added-Settled :
      (p : DefaultPolicy) (victims : List (Item V))
      → Budget p.evict
      → get key p.evict.key_costs ≡ none
      → total p.evict.key_costs +ℤ cost ≤ℤ p.evict.max_cost
      → Settled key cost (record p { evict = SampledLfu.add key cost p.evict }, victims, true)
  added-Settled p victims b absent le = record {
    budget = add-Budget key cost p.evict b absent nonneg le;
    present = get-add key cost p.evict;
  }

  reject-Settled :
      (p : DefaultPolicy) (victims : List (Item V)) (r : DefaultPolicy × List (Item V) × Bool)
      → Budget p.evict
      → get key p.evict.key_costs ≡ none
      → (reject p >>= λ metrics. ok (record p { metrics = metrics }, victims, false)) ≡ ok r
      → Settled key cost r
  reject-Settled p victims r b absent e =
      let (m, run, same) = >>=-eq-ok (reject p) _ e in
      subst_ok (Settled key cost) same (record { budget = b; present = absent })

  evict_loop-Settled :
      (fuel inc_hits : ℕ) (room : ℤ) (sample : List PolicyPair) (victims : List (Item V))
      (p : DefaultPolicy) (r : DefaultPolicy × List (Item V) × Bool)
      → Budget p.evict
      → get key p.evict.key_costs ≡ none
      → cost ≤ℤ p.evict.max_cost
      → (ltb_ℤ room (pos 0) ≡ false → total p.evict.key_costs +ℤ cost ≤ℤ p.evict.max_cost)
      → evict_loop order fuel key cost inc_hits room sample victims p ≡ ok r
      → Settled key cost r
  unfolding evict_loop
  evict_loop-Settled zero inc_hits room sample victims p r b absent fits stale e =
      absurd (ground arith)
  evict_loop-Settled (suc fuel) inc_hits room sample victims p r b absent fits stale e =
      elim (Bool-cases (ltb_ℤ room (pos 0))) [
        | inr done ↦
            subst_ok (Settled key cost) (rw done at e)
              (added-Settled p victims b absent (stale done))
        | inl lacking ↦
            let filled = fill_sample order p.evict sample in
            let (least, scanned, rest) =
              >>=-eq-ok (scan p.admit 0 filled no_least) _ (rw lacking at e) in
            elim (Bool-cases (ltb inc_hits least.min_hits)) [
              | inl rejected ↦ reject-Settled p victims r b absent (rw rejected at rest)
              | inr chosen ↦
                  let (sample', dropped, again) =
                    >>=-eq-ok (drop_least least.min_id filled) _ (rw chosen at rest) in
                  let d = del-Deleted least.min_key p.evict b in
                  evict_loop-Settled fuel inc_hits (room_left cost p.evict) sample'
                    (victims ++ victim least ∷ []) (without least.min_key p) r d.budget
                    (rw d.costs_eq (rw get-remove (ground arith))) (rw d.max_eq fits)
                    (λ done.
                      let le = room_left_le cost p.evict b nonneg fits done in
                      rw d.max_eq (
                        omega (
                          arith,
                          d.less,
                          le,
                          +ℤ_parts (total p.evict.key_costs) cost,
                          +ℤ_parts (total (SampledLfu.del least.min_key p.evict).key_costs) cost,
                        )))
                    again
            ]
      ]

  settle :
      (fuel : ℕ) (p : DefaultPolicy) (r : DefaultPolicy × List (Item V) × Bool)
      → Budget p.evict
      → get key p.evict.key_costs ≡ none
      → cost ≤ℤ p.evict.max_cost
      → admit_new order fuel key cost p ≡ ok r
      → Settled key cost r
  unfolding admit_new
  settle fuel p r b absent le e = elim (Bool-cases (ltb_ℤ (room_left cost p.evict) (pos 0))) [
    | inr roomy ↦
        subst_ok (Settled key cost) (rw roomy at e)
          (added-Settled p [] b absent (room_left_le cost p.evict b nonneg le roomy))
    | inl lacking ↦
        let (inc_hits, est, loop) = >>=-eq-ok (TinyLfu.estimate key p.admit) _ (rw lacking at e) in
        evict_loop-Settled fuel inc_hits (room_left cost p.evict) [] [] p r b absent le
          (λ roomy. absurd (ground (arith, lacking, roomy))) loop
  ]

  -- From costs within a capacity below 2^62, the addition of a new key with a cost that is not
  -- negative, if it returns, leaves the costs within the capacity, and the key in the policy with
  -- its cost exactly if the addition reports so, whatever the order of iteration and the
  -- frequencies.
  pub add-Settled :
      (fuel : ℕ) (p : DefaultPolicy) (r : DefaultPolicy × List (Item V) × Bool)
      → Budget p.evict
      → get key p.evict.key_costs ≡ none
      → add order fuel key cost p ≡ ok r
      → Settled key cost r
  add-Settled fuel p r b absent e = elim (Bool-cases (ltb_ℤ p.evict.max_cost cost)) [
    | inl big ↦
        let e' : ok (p, [], false) ≡ ok r = unfold add in (rw big at e) in
        subst_ok (Settled key cost) e' (record { budget = b; present = absent })
    | inr fits ↦
        let le : cost ≤ℤ p.evict.max_cost = ground arith in
        settle fuel p r b absent le (sym (add-admit_new order fuel key cost p absent le) ∙ e)
  ]
