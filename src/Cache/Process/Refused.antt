-- ===== src/Cache/Process/Refused.antt =====
-- The loop of `process_items` for a new item that the policy does not add.
use memory_cache_rust.Prelude.{
  ℕ, zero, suc, ◌≡◌, ◌⊎◌, inl, inr, refl, ap, ◌∙◌, true, false, List, [], Option, none, ok, timeout,
  >>=-ok, is_some, nat_eq, nat_beq_iff, arith, Bool-cases, Option-cases,
}
use memory_cache_rust.Prelude.Int.{ℤ, ltb_ℤ}
use memory_cache_rust.Prelude.HashMap
use memory_cache_rust.Prelude.HashMap.{HashMap}
use memory_cache_rust.Bloom.{Floats}
use memory_cache_rust.Cache.{Cache, Config, del}
use memory_cache_rust.Cache.Process.{
  process_new, process_flag, process_items, process_delete, evict_stored, init_policy,
}
use memory_cache_rust.Item.{Item, Node, item_new, item_delete}
use memory_cache_rust.Metrics.{IsUnused}
use memory_cache_rust.Policy
use memory_cache_rust.Policy.{DefaultPolicy}
use memory_cache_rust.Ring.{RingStripe}
use memory_cache_rust.SampledLfu.{PolicyPair}
use memory_cache_rust.SampledLfu.Costs.{IsValid, update_if_has_lem}

-- The policy is not to add the key: the cost is above the capacity, or the key is in the policy.
abbrev pub IsRefused : ℕ → ℤ → DefaultPolicy → Type 0
IsRefused key cost p =
    (ltb_ℤ p.evict.max_cost cost ≡ true)
    ⊎ (IsValid p.evict
        × IsUnused p.evict.metrics
        × (is_some (HashMap.get key p.evict.key_costs) ≡ true))

module _ {V : Type 0} (order : HashMap ℕ ℤ → List PolicyPair) (fuel key : ℕ) (cost : ℤ) where
  -- `add` returns without a victim, and refuses the key again.
  add-Refused :
      (p : DefaultPolicy)
      → IsRefused key cost p
      → (p' : DefaultPolicy) × (Policy.add {V = V} order fuel key cost p ≡ ok (p', [], false))
        × IsRefused key cost p'
  unfolding Policy.add
  add-Refused p h = elim (Bool-cases (ltb_ℤ p.evict.max_cost cost)) [
    | inl e ↦ (p, rw e refl, inl e)
    | inr e ↦ elim h [
      | inl bad ↦ ground (arith, e, bad)
      | inr (valid, unused, known) ↦
          let (s', run, valid', costs, same, cap, shared) =
            update_if_has_lem key cost p.evict valid unused in
          (
            record p { evict = s' },
            rw e (>>=-ok run _ ∙ rw known refl),
            inr (
              valid',
              rw shared unused,
              rw (costs key, known, (nat_beq_iff key key).1 refl) refl,
            ),
          )
    ]
  ]

  process_new-Refused :
      (rounds : ℕ) (node : Node V) (item : Item V) (c : Cache V)
      → item.key ≡ key
      → item.cost ≡ cost
      → IsRefused key cost c.policy
      → process_new order fuel rounds node item c ≡ timeout
  unfolding process_new evict_stored
  process_new-Refused zero node item c k e h = refl
  process_new-Refused (suc rounds) node item c k e h =
      let (p', run, again) = add-Refused c.policy h in
      let run' : Policy.add {V = V} order fuel item.key item.cost c.policy ≡ ok (p', [], false) =
        rw (k, e) run in
      >>=-ok run' _ ∙ process_new-Refused rounds node item (record c { policy = p' }) k e again

-- `process_items` never returns from a new item that the policy is not to add, one whose cost is
-- above the capacity or whose key is in the policy: it uses up any number of rounds. In the second
-- case the policy's costs are summed right and no metrics have counted.
pub process_items-Refused :
    {V : Type 0} (order : HashMap ℕ ℤ → List PolicyPair) (fuel rounds : ℕ) (node : Node V)
    (item : Item V) (c : Cache V)
    → item.flag ≡ item_new
    → IsRefused item.key item.cost c.policy
    → process_items order fuel rounds node item c ≡ timeout
unfolding process_items process_flag
process_items-Refused order fuel rounds node item c flag h =
    ap (λ f. process_flag order fuel f rounds node item c) flag
    ∙ process_new-Refused order fuel item.key item.cost rounds node item c refl refl h

-- Without metrics, `init_policy` never returns for a null policy.
init_policy-timeout :
    (fl : Floats) (source : ℕ) (config : Config) (rounds : ℕ) (ring : Option RingStripe)
    → init_policy fl source config none rounds none ring ≡ timeout
unfolding init_policy
init_policy-timeout fl source config zero ring = refl
init_policy-timeout fl source config (suc rounds) ring =
    init_policy-timeout fl source config rounds ring

-- `process_items` on the item of a deletion does what the model's `del` does.
process_items-del :
    {V : Type 0} (order : HashMap ℕ ℤ → List PolicyPair) (fuel rounds : ℕ) (node : Node V)
    (item : Item V) (c : Cache V)
    → item.flag ≡ item_delete
    → process_items order fuel rounds node item c ≡ del item.key item.conflict c
unfolding process_items process_flag process_delete del
process_items-del order fuel rounds node item c flag =
    ap (λ f. process_flag order fuel f rounds node item c) flag
    ∙ elim (Option-cases c.store) [ inl e ↦ rw e refl | inr (s, e) ↦ rw e refl ]
