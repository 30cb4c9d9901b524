-- ===== src/Cache/Coherent/Charged.antt =====
-- Along a history of calls, the costs of the policy stay within the capacity of the cache.
use mathlib.Core.Option.{none-ne-some}
use mathlib.Core.Path.{subst}
use memory_cache_rust.Prelude.{
  All, ℕ, ◌^◌, ◌<◌, ◌≡◌, inl, inr, refl, sym, ◌∙◌, Bool, List, [], ◌∷◌, Option, none, some, ok,
  >>=-ok, >>=-eq-ok, subst_ok, Bool-cases, if◌then◌else◌, nat_eq, arith,
}
use memory_cache_rust.Prelude.Int.{ℤ, pos_part, neg_part, ◌≤ℤ◌, wrap_i64}
use memory_cache_rust.Prelude.HashMap.{HashMap, get}
use memory_cache_rust.Bloom.{Floats}
use memory_cache_rust.Cache.{Cache, Config, with_hasher, set_until}
use memory_cache_rust.Cache.Coherent.Priced.{IsPriced, update-IsPriced, add-IsPriced, del-IsPriced}
use memory_cache_rust.Cache.Expiry.{expiry}
use memory_cache_rust.Cache.History.Timed.{perform-until}
use memory_cache_rust.Cache.History.{
  Call, get_call, set_call, del_call, clean_call, perform, perform_all,
}
use memory_cache_rust.Cache.History.Answers.{
  null_or_Stocked, del-null, clean_up-null, clean_up-kept, clash, perform-Healthy,
}
use memory_cache_rust.Cache.History.Sound.{
  IsHealthy, IsHealthy-IsReady, with_hasher-Healthy, store_of-Stocked,
}
use memory_cache_rust.Cache.Reads.{get-shown_by}
use memory_cache_rust.Cache.Writes.{store_of, set_until_known, set_until_new, del_lem}
use memory_cache_rust.Cache.Writes.Asks.{known-asks, unknown-asks}
use memory_cache_rust.Item.{Item}
use memory_cache_rust.Metrics
use memory_cache_rust.Metrics.{Metrics}
use memory_cache_rust.Policy
use memory_cache_rust.Policy.{DefaultPolicy}
use memory_cache_rust.SampledLfu
use memory_cache_rust.SampledLfu.{PolicyPair}
use memory_cache_rust.SampledLfu.Costs.{total}
use memory_cache_rust.Store.Refine.{matches}
use memory_cache_rust.Store.View.{view}
use memory_cache_rust.TinyLfu

-- An insertion of a key names its price as the cost.
abbrev pub IsFixed : {V : Type 0} → (ℕ → ℤ) → Call V → Type 0
IsFixed price (get_call elapsed key conflict) = Unit
IsFixed price (set_call clock key conflict value cost ttl) = cost ≡ price key
IsFixed price (del_call key conflict) = Unit
IsFixed price (clean_call now) = Unit

module _ {V : Type 0} (order : HashMap ℕ ℤ → List PolicyPair) (fuel key conflict : ℕ) (value : V)
    (cost : ℤ) (ttl : ℕ) (Q : DefaultPolicy → Type 0) (c c' : Cache V) (b : Bool) (h : IsHealthy c)
    (e : set_until order fuel key conflict value cost ttl c ≡ ok (b, c')) where
  -- The policy after an insertion is the one after its update or its addition of the key.
  pub set_until-policy :
      ((p : DefaultPolicy) → Policy.update key cost c.policy ≡ ok p → Q p)
      → ((r : DefaultPolicy × List (Item V) × Bool)
          → Policy.add order fuel key cost c.policy ≡ ok r
          → Q r.0)
      → Q c'.policy
  set_until-policy updated added =
      let w = store_of-Stocked c h in
      elim (Bool-cases (matches conflict (view (store_of c) key))) [
        | inl known ↦
            let (p, asked) =
              known-asks order fuel key conflict value cost ttl c w (b, c') e known in
            let (s, run, w', ch) =
              set_until_known order fuel key conflict value cost ttl c p w known asked in
            subst_ok (λ r. Q r.1.policy) (sym run ∙ e) (updated p asked)
        | inr unknown ↦
            let ((p, victims, more), asked) =
              unknown-asks order fuel key conflict value cost ttl c w (b, c') e unknown in
            let (s, run, w', same) =
              set_until_new order fuel key conflict value cost ttl c p victims more w h.metered
                unknown asked in
            subst_ok (λ r. Q r.1.policy) (sym run ∙ e) (added (p, victims, more) asked)
      ]

module _ {V : Type 0} (order : HashMap ℕ ℤ → List PolicyPair) (items : HashMap ℕ ℕ → List (ℕ × ℕ))
    (none_due : items [] ≡ []) (fuel : ℕ) (price : ℕ → ℤ)
    (nonneg : (key : ℕ) → neg_part (price key) ≡ 0) (m : ℤ) where
  perform-IsPriced :
      (call : Call V) (c c' : Cache V)
      → IsFixed price call
      → IsHealthy c
      → IsPriced price m c.policy.evict
      → perform order items fuel call c ≡ ok c'
      → IsPriced price m c'.policy.evict
  unfolding perform
  perform-IsPriced (get_call elapsed key conflict) c c' fixed h k e =
      subst_ok (λ d. IsPriced price m d.policy.evict)
        (sym (>>=-ok (get-shown_by elapsed key conflict c (IsHealthy-IsReady c h)) _) ∙ e) k
  perform-IsPriced (set_call clock key conflict value cost ttl) c c' fixed h k e =
      let (r, run, same) =
        perform-until order items fuel clock key conflict value cost ttl c c' e in
      subst_ok (λ d. IsPriced price m d.policy.evict) same
        (set_until-policy order fuel key conflict value cost (expiry clock ttl)
          (λ p. IsPriced price m p.evict) c r.1 r.0 h run
          (λ p. update-IsPriced price m key cost fixed c.policy p k)
          (λ a. add-IsPriced price m key cost fixed order fuel c.policy a k (nonneg key)))
  perform-IsPriced (del_call key conflict) c c' fixed h k e = elim (null_or_Stocked c h) [
    | inl null ↦ absurd (clash (del-null key conflict c null) e)
    | inr (s, there, w) ↦
        let (s', run, w', ch) = del_lem key conflict c s there w in
        subst_ok (λ d. IsPriced price m d.policy.evict) (sym run ∙ e)
          (del-IsPriced price m key c.policy k)
  ]
  perform-IsPriced (clean_call now) c c' fixed h k e = elim (null_or_Stocked c h) [
    | inl null ↦ absurd (clash (clean_up-null items now c null) e)
    | inr (s, there, w) ↦
        subst_ok (λ d. IsPriced price m d.policy.evict)
          (sym (clean_up-kept items none_due now c s there) ∙ e) k
  ]

  perform_all-IsPriced :
      (calls : List (Call V)) (c c' : Cache V)
      → All (IsFixed price) calls
      → IsHealthy c
      → IsPriced price m c.policy.evict
      → perform_all order items fuel calls c ≡ ok c'
      → IsPriced price m c'.policy.evict
  unfolding perform_all
  perform_all-IsPriced [] c c' fixed h k e = subst_ok (λ d. IsPriced price m d.policy.evict) e k
  perform_all-IsPriced (call ∷ calls) c c' fixed h k e =
      let (c1, run, rest) = >>=-eq-ok (perform order items fuel call c) _ e in
      let (h1, built) = perform-Healthy order items none_due fuel call c c1 h run in
      perform_all-IsPriced calls c1 c' fixed.1 h1 (perform-IsPriced call c c1 fixed.0 h k run) rest

pub new-IsPriced :
    (price : ℕ → ℤ) (m : ℤ) (shared : Option Metrics)
    → neg_part m ≡ 0
    → pos_part m < 2 ^ 62
    → IsPriced price m (SampledLfu.new m shared)
unfolding SampledLfu.new total wrap_i64 get
new-IsPriced price m shared positive small = (
  record {
    valid = record { distinct = tt; summed = refl };
    costs = tt;
    bounded = omega arith;
    small = small;
  },
  (λ k v e. absurd (none-ne-some v e), refl),
)

pub with_hasher-IsPriced :
    {V : Type 0} (price : ℕ → ℤ) (fl : Floats) (source : ℕ) (config : Config) (c : Cache V)
    → neg_part config.max_cost ≡ 0
    → pos_part config.max_cost < 2 ^ 62
    → with_hasher fl source config ≡ ok c
    → IsPriced price config.max_cost c.policy.evict
unfolding with_hasher Policy.new
with_hasher-IsPriced price fl source config c positive small e =
    let shared : Option Metrics =
      if config.metrics then some (Metrics.new Metrics.do_not_use) else none in
    let (p, built, same) =
      >>=-eq-ok (Policy.new fl source config.numb_counters config.max_cost shared) _ e in
    let (admit, sized, same') = >>=-eq-ok (TinyLfu.new fl source config.numb_counters) _ built in
    subst_ok (λ d. IsPriced price config.max_cost d.policy.evict) same
      (subst_ok (λ q. IsPriced price config.max_cost q.evict) same'
        (new-IsPriced price config.max_cost shared positive small))

-- After any history of the calls `get`, `set_with_ttl`, `del` and `clean_up` on a new cache that
-- has returned, the costs in the policy fit the capacity, where the capacity is not negative and
-- below 2^62 and every insertion of a key names the key's price, which is not negative. This is
-- where an empty map has nothing to iterate over.
pub history-Budget :
    {V : Type 0} (order : HashMap ℕ ℤ → List PolicyPair) (items : HashMap ℕ ℕ → List (ℕ × ℕ))
    (fuel : ℕ) (price : ℕ → ℤ) (fl : Floats) (source : ℕ) (config : Config) (calls : List (Call V))
    (c c' : Cache V)
    → items [] ≡ []
    → ((key : ℕ) → neg_part (price key) ≡ 0)
    → neg_part config.max_cost ≡ 0
    → pos_part config.max_cost < 2 ^ 62
    → All (IsFixed price) calls
    → with_hasher fl source config ≡ ok c
    → perform_all order items fuel calls c ≡ ok c'
    → total c'.policy.evict.key_costs ≤ℤ config.max_cost
history-Budget order items fuel price fl source config calls c c' none_due nonneg positive small
      fixed made run =
    let start = with_hasher-IsPriced price fl source config c positive small made in
    let (h, null) = with_hasher-Healthy fl source config c made in
    let (b, (prices, kept)) =
      perform_all-IsPriced order items none_due fuel price nonneg config.max_cost calls c c' fixed h
        start run in
    subst (λ z. total c'.policy.evict.key_costs ≤ℤ z) kept b.bounded
