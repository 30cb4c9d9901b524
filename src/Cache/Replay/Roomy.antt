-- ===== src/Cache/Replay/Roomy.antt =====
-- The policy of src/policy.rs along a history whose insertions fit its capacity together: nothing is evicted.
use memory_cache_rust.Prelude.{
  ℕ, ◌+◌, ◌≤◌, ◌≡◌, ◌∙◌, sym, inl, inr, refl, Bool, true, List, [], ◌∷◌, Option, none, some, ok,
  >>=-eq-ok, subst_ok, Bool-cases, is_some, if◌then◌else◌, arith, nat_eq, nat_beq, nat_beq_iff,
}
use memory_cache_rust.Prelude.Int.{ℤ, pos_part, neg_part, ◌≤ℤ◌, ◌+ℤ◌, +ℤ_parts}
use memory_cache_rust.Prelude.HashMap.{HashMap, get, get-insert}
use memory_cache_rust.Cache.Coherent.Priced.{
  IsPriced, update-IsPriced, add-IsPriced, del-IsPriced, same-price,
}
use memory_cache_rust.Cache.History.{Call, get_call, set_call, del_call, clean_call}
use memory_cache_rust.Cache.Replay.Spared.{get-del, update-keys}
use memory_cache_rust.Cache.Replay.{written, replay}
use memory_cache_rust.Item.{Item, Node}
use memory_cache_rust.Policy
use memory_cache_rust.Policy.{DefaultPolicy, admit_new}
use memory_cache_rust.Policy.Loop.{add-admit_new}
use memory_cache_rust.Policy.Samples.{room_left_ge}
use memory_cache_rust.SampledLfu
use memory_cache_rust.SampledLfu.{SampledLfu, PolicyPair, update_if_has}
use memory_cache_rust.SampledLfu.Budget.{Budget, total_nonneg, del-Deleted}
use memory_cache_rust.SampledLfu.Costs.{total, total-insert_new}

-- The cost that a call names, if it is an insertion.
abbrev pub named : {V : Type 0} → Call V → ℕ
named (get_call elapsed key conflict) = 0
named (set_call clock key conflict value cost ttl) = pos_part cost
named (del_call key conflict) = 0
named (clean_call now) = 0

-- The costs that the insertions of a history name.
abbrev pub spent : {V : Type 0} → List (Call V) → ℕ
spent [] = 0
spent (call ∷ calls) = named call + spent calls

pub pos_sum :
    (t c : ℤ) (left n : ℕ)
    → neg_part t ≡ 0
    → neg_part c ≡ 0
    → pos_part t + (pos_part c + left) ≤ n
    → pos_part (t +ℤ c) + left ≤ n
unfolding ◌+ℤ◌
pos_sum t c left n p q h = ground arith

-- A new key that fits beside the costs is added, and nothing is evicted.
pub add_fitting :
    {V : Type 0} (order : HashMap ℕ ℤ → List PolicyPair) (fuel key : ℕ) (cost : ℤ)
    (p : DefaultPolicy)
    → Budget p.evict
    → neg_part cost ≡ 0
    → get key p.evict.key_costs ≡ none
    → total p.evict.key_costs +ℤ cost ≤ℤ p.evict.max_cost
    → Policy.add {V = V} order fuel key cost p
      ≡ ok (record p { evict = SampledLfu.add key cost p.evict }, [], true)
unfolding admit_new
add_fitting order fuel key cost p b nonneg absent fits =
    let le : cost ≤ℤ p.evict.max_cost = omega (
      arith,
      fits,
      +ℤ_parts (total p.evict.key_costs) cost,
      total_nonneg p.evict.key_costs b.costs,
    ) in
    add-admit_new order fuel key cost p absent le
    ∙ rw (room_left_ge cost p.evict b nonneg le fits) refl

module _ {V : Type 0} (price : ℕ → ℤ) (cap : ℤ) (positive : neg_part cap ≡ 0) where
  -- The costs are prices, `left` fits beside them, and the policy has every key of the map.
  pub record IsRoomy (m : ℕ → Option (Node V)) (left : ℕ) (p : DefaultPolicy) : Type 0 where
    pub priced : IsPriced price cap p.evict
    pub roomy : pos_part (total p.evict.key_costs) + left ≤ pos_part cap
    pub full : (j : ℕ) → is_some (m j) ≡ true → is_some (get j p.evict.key_costs) ≡ true

  pub none_named :
      (left : ℕ) (m : ℕ → Option (Node V)) (p : DefaultPolicy)
      → IsRoomy m (0 + left) p
      → IsRoomy m left p
  none_named left m p h = record {
    priced = h.priced;
    roomy = omega (arith, h.roomy);
    full = h.full;
  }

  pub del-IsRoomy :
      (key conflict left : ℕ) (m : ℕ → Option (Node V)) (p : DefaultPolicy)
      → IsRoomy m (0 + left) p
      → IsRoomy (replay (del_call key conflict) m) left (Policy.del key p)
  unfolding Policy.del
  del-IsRoomy key conflict left m p h =
      let d = del-Deleted key p.evict h.priced.0 in
      record {
        priced = del-IsPriced price cap key p h.priced;
        roomy = omega (
          arith,
          h.roomy,
          d.less,
          total_nonneg p.evict.key_costs h.priced.0.costs,
          total_nonneg (SampledLfu.del key p.evict).key_costs d.budget.costs,
        );
        full = λ j there. get-del key j p.evict ∙ ground (arith, there, h.full j);
      }

  pub fits_beside :
      (key : ℕ) (cost : ℤ) (left : ℕ)
      → cost ≡ price key
      → neg_part (price key) ≡ 0
      → (m : ℕ → Option (Node V)) (p : DefaultPolicy) → IsRoomy m (pos_part cost + left) p
      → total p.evict.key_costs +ℤ cost ≤ℤ p.evict.max_cost
  fits_beside key cost left fixed nonneg m p h =
      let (b, (prices, capacity)) = h.priced in
      let n = total_nonneg p.evict.key_costs b.costs in
      let free : neg_part cost ≡ 0 = rw fixed nonneg in
      rw capacity
        (omega (arith, h.roomy, n, free, positive, +ℤ_parts (total p.evict.key_costs) cost))

  module _ (key : ℕ) (value : V) (cost : ℤ) (ttl : ℕ) (fixed : cost ≡ price key)
      (nonneg : neg_part (price key) ≡ 0) (left : ℕ) (m : ℕ → Option (Node V)) (p : DefaultPolicy)
      (h : IsRoomy m (pos_part cost + left) p) where
    full_after :
        (q : DefaultPolicy)
        → ((j : ℕ)
            → is_some (get j q.evict.key_costs)
              ≡ (if nat_beq key j then true else is_some (get j p.evict.key_costs)))
        → (j : ℕ) → is_some (written key 0 value cost ttl m j) ≡ true
        → is_some (get j q.evict.key_costs) ≡ true
    full_after q same j there = same j ∙ ground (arith, there, h.full j)

    pub update-IsRoomy :
        (v : ℤ) (q : DefaultPolicy)
        → get key p.evict.key_costs ≡ some v
        → Policy.update key cost p ≡ ok q
        → IsRoomy (written key 0 value cost ttl m) left q
    unfolding Policy.update
    update-IsRoomy v q found e =
        let (u, asked, same) = >>=-eq-ok (update_if_has key cost p.evict) _ e in
        let (known, (costs, used, max)) =
          same-price price cap key cost fixed p.evict u v h.priced found asked in
        let costs' : q.evict.key_costs ≡ p.evict.key_costs =
          subst_ok (λ q. q.evict.key_costs ≡ p.evict.key_costs) same costs in
        record {
          priced = update-IsPriced price cap key cost fixed p q h.priced e;
          roomy = rw costs' (omega (arith, h.roomy));
          full = full_after q (λ j. update-keys key cost p q e j ∙ there_already j);
        }
      where
        there_already :
            (j : ℕ)
            → is_some (get j p.evict.key_costs)
              ≡ (if nat_beq key j then true else is_some (get j p.evict.key_costs))
        there_already j = elim (Bool-cases (nat_beq key j)) [
          | inr e ↦ rw e refl
          | inl e ↦ let k : key ≡ j = (nat_beq_iff key j).0 e in rw (e, ← k, found) refl
        ]

    pub add-IsRoomy :
        (order : HashMap ℕ ℤ → List PolicyPair) (fuel : ℕ)
        (r : DefaultPolicy × List (Item V) × Bool)
        → get key p.evict.key_costs ≡ none
        → Policy.add order fuel key cost p ≡ ok r
        → IsRoomy (written key 0 value cost ttl m) left r.0
    unfolding SampledLfu.add
    add-IsRoomy order fuel r absent e =
        let b = h.priced.0 in
        let n = total_nonneg p.evict.key_costs b.costs in
        let free : neg_part cost ≡ 0 = rw fixed nonneg in
        let fits = fits_beside key cost left fixed nonneg m p h in
        let q : DefaultPolicy = record p { evict = SampledLfu.add key cost p.evict } in
        let run = add_fitting order fuel key cost p b free absent fits in
        subst_ok (λ r. IsRoomy (written key 0 value cost ttl m) left r.0) (sym run ∙ e)
          (record {
            priced = add-IsPriced price cap key cost fixed order fuel p _ h.priced nonneg run;
            roomy =
                rw (total-insert_new key cost p.evict.key_costs absent)
                  (pos_sum (total p.evict.key_costs) cost left (pos_part cap) n free h.roomy);
            full = full_after q (λ j. rw get-insert (ground arith));
          })
