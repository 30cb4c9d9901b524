-- ===== src/Cache/Replay/Lossless.antt =====
-- Histories of calls on one cache of src/cache.rs whose insertions fit its capacity together: the cache is the map.
use memory_cache_rust.Prelude.{
  All, ℕ, ◌+◌, ◌^◌, ◌≤◌, ◌<◌, ◌≡◌, inl, inr, refl, sym, ◌∙◌, ap, Bool, true, false, List, [], ◌∷◌,
  Option, none, some, ok, >>=-ok, >>=-eq-ok, subst_ok, is_some, nat_eq, length, Bool-cases,
  if◌then◌else◌, arith,
}
use memory_cache_rust.Prelude.Int.{ℤ, pos_part, neg_part}
use memory_cache_rust.Prelude.HashMap.{HashMap}
use memory_cache_rust.Bloom.{Floats}
use memory_cache_rust.Cache
use memory_cache_rust.Cache.{Cache, Config, with_hasher, set_until}
use memory_cache_rust.Cache.Coherent.Agree.{stored}
use memory_cache_rust.Cache.Coherent.Charged.{IsFixed, with_hasher-IsPriced}
use memory_cache_rust.Cache.Expiry.{expiry}
use memory_cache_rust.Cache.History.Timed.{perform-until}
use memory_cache_rust.Cache.History.{
  Call, get_call, set_call, del_call, clean_call, perform, perform_all,
}
use memory_cache_rust.Cache.History.Answers.{
  null_or_Stocked, del-null, clean_up-null, clean_up-kept, clash, perform-Healthy,
}
use memory_cache_rust.Cache.History.Sound.{
  IsHealthy, IsHealthy-IsReady, with_hasher-Healthy, store_of-Stocked,
}
use memory_cache_rust.Cache.Reads.{get-shown_by}
use memory_cache_rust.Cache.Replay.Along.{
  perform-IsExact, get-IsExact, shown_if, no_costs, empty-IsExact,
}
use memory_cache_rust.Cache.Replay.Exact.{IsExact, has-matches}
use memory_cache_rust.Cache.Replay.Roomy.{
  IsRoomy, named, none_named, spent, del-IsRoomy, update-IsRoomy, add-IsRoomy,
}
use memory_cache_rust.Cache.Replay.Spared.{is_none}
use memory_cache_rust.Cache.Replay.{written, IsInteger, replay, replay_all}
use memory_cache_rust.Cache.Writes.{store_of, set_until_known, set_until_new, del_lem}
use memory_cache_rust.Cache.Writes.Asks.{known-asks, unknown-asks}
use memory_cache_rust.Item.{Node}
use memory_cache_rust.Policy
use memory_cache_rust.Policy.{DefaultPolicy}
use memory_cache_rust.Policy.Samples.{IsOrder, total-nil}
use memory_cache_rust.Ring.{refilled}
use memory_cache_rust.SampledLfu.{PolicyPair}
use memory_cache_rust.Store.Reads.{shown}
use memory_cache_rust.Store.Refine.{matches}
use memory_cache_rust.Store.View.{view}

-- A key that has an entry.
there_is : {A : Type 0} (o : Option A) → is_some o ≡ true → (a : A) × (o ≡ some a)
there_is none e = absurd (ground arith)
there_is (some a) e = (a, refl)

whole_if :
    {A : Type 0} (b : Bool) (o : Option A)
    → (is_some o ≡ true → b ≡ true)
    → (if b then o else none) ≡ o
whole_if true o h = refl
whole_if false none h = refl
whole_if false (some a) h = absurd (ground (arith, h))

module _ {V : Type 0} (order : HashMap ℕ ℤ → List PolicyPair) (visit : IsOrder order)
    (items : HashMap ℕ ℕ → List (ℕ × ℕ)) (none_due : items [] ≡ []) (fuel : ℕ) (price : ℕ → ℤ)
    (nonneg : (key : ℕ) → neg_part (price key) ≡ 0) (cap : ℤ) (positive : neg_part cap ≡ 0) where
  -- The cache holds what the map has at the keys of the policy, which are all, and `left` fits beside their costs.
  abbrev pub IsWhole : (ℕ → Option (Node V)) → ℕ → Cache V → Type 0
  IsWhole m left c =
      IsHealthy c × IsExact m c.policy c.store × IsRoomy price cap positive m left c.policy

  set-IsRoomy :
      (key : ℕ) (value : V) (cost : ℤ) (ttl left : ℕ) (m : ℕ → Option (Node V)) (c c' : Cache V)
      (b : Bool)
      → cost ≡ price key
      → IsWhole m (pos_part cost + left) c
      → set_until order fuel key 0 value cost ttl c ≡ ok (b, c')
      → IsRoomy price cap positive (written key 0 value cost ttl m) left c'.policy
  set-IsRoomy key value cost ttl left m c c' b fixed (h, x, k) e =
      let w = store_of-Stocked c h in
      let agree = has-matches key m c x in
      elim (Bool-cases (matches 0 (view (store_of c) key))) [
        | inl known ↦
            let (p, asked) = known-asks order fuel key 0 value cost ttl c w (b, c') e known in
            let (s, run, w', ch) =
              set_until_known order fuel key 0 value cost ttl c p w known asked in
            let (v, found) = there_is _ (sym agree ∙ known) in
            subst_ok
              (λ r. IsRoomy price cap positive (written key 0 value cost ttl m) left r.1.policy)
              (sym run ∙ e)
              (update-IsRoomy price cap positive key value cost ttl fixed (nonneg key) left m
                c.policy k v p found asked)
        | inr fresh ↦
            let ((p, victims, added), asked) =
              unknown-asks order fuel key 0 value cost ttl c w (b, c') e fresh in
            let (s, run, w', same) =
              set_until_new order fuel key 0 value cost ttl c p victims added w h.metered fresh
                asked in
            subst_ok
              (λ r. IsRoomy price cap positive (written key 0 value cost ttl m) left r.1.policy)
              (sym run ∙ e)
              (add-IsRoomy price cap positive key value cost ttl fixed (nonneg key) left m c.policy
                k order fuel (p, victims, added) (is_none _ (sym agree ∙ fresh)) asked)
      ]

  called-IsRoomy :
      (key : ℕ) (value : V) (cost : ℤ) (ttl left : ℕ) (m : ℕ → Option (Node V)) (c c' : Cache V)
      → cost ≡ price key
      → IsWhole m (pos_part cost + left) c
      → (r : Bool × Cache V) × (set_until order fuel key 0 value cost ttl c ≡ ok r)
        × (ok r.1 ≡ ok c')
      → IsRoomy price cap positive (written key 0 value cost ttl m) left c'.policy
  called-IsRoomy key value cost ttl left m c c' fixed k (r, run, same) =
      subst_ok (λ d. IsRoomy price cap positive (written key 0 value cost ttl m) left d.policy) same
        (set-IsRoomy key value cost ttl left m c r.1 r.0 fixed k run)

  pub perform-IsRoomy :
      (call : Call V) (left : ℕ) (m : ℕ → Option (Node V)) (c c' : Cache V)
      → IsInteger call
      → IsFixed price call
      → IsWhole m (named call + left) c
      → perform order items fuel call c ≡ ok c'
      → IsRoomy price cap positive (replay call m) left c'.policy
  unfolding perform
  perform-IsRoomy (get_call elapsed key conflict) left m c c' plain fixed (h, x, k) e =
      subst_ok (λ d. IsRoomy price cap positive m left d.policy)
        (sym (>>=-ok (get-shown_by elapsed key conflict c (IsHealthy-IsReady c h)) _) ∙ e)
        (none_named price cap positive left m c.policy k)
  perform-IsRoomy (set_call clock key conflict value cost ttl) left m c c' plain fixed (h, x, k) e =
      rw plain (
        called-IsRoomy key value cost (expiry clock ttl) left m c c' fixed (h, x, k)
          (perform-until order items fuel clock key 0 value cost ttl c c' (rw plain at e)))
  perform-IsRoomy (del_call key conflict) left m c c' plain fixed (h, x, k) e =
      elim (null_or_Stocked c h) [
        | inl null ↦ absurd (clash (del-null key conflict c null) e)
        | inr (s, there, w) ↦
            let (s', run, w', ch) = del_lem key conflict c s there w in
            subst_ok
              (λ d. IsRoomy price cap positive (replay (del_call key conflict) m) left d.policy)
              (sym run ∙ e) (del-IsRoomy price cap positive key conflict left m c.policy k)
      ]
  perform-IsRoomy (clean_call now) left m c c' plain fixed (h, x, k) e =
      elim (null_or_Stocked c h) [
        | inl null ↦ absurd (clash (clean_up-null items now c null) e)
        | inr (s, there, w) ↦
            subst_ok (λ d. IsRoomy price cap positive m left d.policy)
              (sym (clean_up-kept items none_due now c s there) ∙ e)
              (none_named price cap positive left m c.policy k)
      ]

  perform_all-IsWhole :
      (calls : List (Call V)) (m : ℕ → Option (Node V)) (c c' : Cache V)
      → All IsInteger calls
      → All (IsFixed price) calls
      → IsWhole m (spent calls) c
      → perform_all order items fuel calls c ≡ ok c'
      → IsWhole (replay_all calls m) 0 c'
  unfolding perform_all
  perform_all-IsWhole [] m c c' plain fixed k e = subst_ok (IsWhole m 0) e k
  perform_all-IsWhole (call ∷ calls) m c c' plain fixed (h, x, k) e =
      let (c1, run, rest) = >>=-eq-ok (perform order items fuel call c) _ e in
      let (h1, built) = perform-Healthy order items none_due fuel call c c1 h run in
      perform_all-IsWhole calls (replay call m) c1 c' plain.1 fixed.1
        (
          h1,
          perform-IsExact order visit items none_due fuel call m c c1 plain.0 h x run,
          perform-IsRoomy call (spent calls) m c c1 plain.0 fixed.0 (h, x, k) run,
        )
        rest

-- A new cache, with room for what a history names.
pub starts-IsWhole :
    {V : Type 0} (order : HashMap ℕ ℤ → List PolicyPair) (visit : IsOrder order)
    (items : HashMap ℕ ℕ → List (ℕ × ℕ)) (none_due : items [] ≡ []) (fuel : ℕ) (price : ℕ → ℤ)
    (nonneg : (key : ℕ) → neg_part (price key) ≡ 0) (fl : Floats) (source : ℕ) (config : Config)
    (positive : neg_part config.max_cost ≡ 0)
    → pos_part config.max_cost < 2 ^ 62
    → (left : ℕ) (c : Cache V) → left ≤ pos_part config.max_cost
    → with_hasher fl source config ≡ ok c
    → IsWhole order visit items none_due fuel price nonneg config.max_cost positive
        (λ j. none)
        left
        c
starts-IsWhole order visit items none_due fuel price nonneg fl source config positive small left c
      enough made =
    let (fresh, null) = with_hasher-Healthy fl source config c made in
    let empty = no_costs fl source config c made in
    (
      fresh,
      empty-IsExact c.policy c.store empty null,
      record {
        priced = with_hasher-IsPriced price fl source config c positive small made;
        roomy = rw (total-nil c.policy.evict.key_costs (ap length empty)) (omega (arith, enough));
        full = λ j there. absurd (ground (arith, there));
      },
    )

module _ {V : Type 0} (order : HashMap ℕ ℤ → List PolicyPair) (visit : IsOrder order)
    (items : HashMap ℕ ℕ → List (ℕ × ℕ)) (none_due : items [] ≡ []) (fuel : ℕ) (price : ℕ → ℤ)
    (nonneg : (key : ℕ) → neg_part (price key) ≡ 0) (fl : Floats) (source : ℕ) (config : Config)
    (positive : neg_part config.max_cost ≡ 0) (small : pos_part config.max_cost < 2 ^ 62)
    (calls : List (Call V)) (c c' : Cache V) (plain : All IsInteger calls)
    (fixed : All (IsFixed price) calls) (enough : spent calls ≤ pos_part config.max_cost)
    (made : with_hasher fl source config ≡ ok c)
    (run : perform_all order items fuel calls c ≡ ok c') where
  -- Where the insertions of a history name costs that fit the capacity together, nothing is lost:
  -- after any history of the calls `get`, `set_with_ttl`, `del` and `clean_up` of integer keys on
  -- a new cache that has returned, the store is the unbounded map of the history, and a `get`
  -- returns what it shows of the map's node. This is where each key has one cost, which is not
  -- negative, the capacity is not negative and below 2^62, the iterations over the map of the
  -- costs visit its entries and no others, and an empty map has nothing to iterate over.
  pub history-lossless :
      (elapsed key : ℕ)
      → (stored key c'.store ≡ replay_all calls (λ j. none) key)
        × (Cache.get elapsed key 0 c'
            ≡ ok (
              shown elapsed 0 (replay_all calls (λ j. none) key),
              record c' { get_buf = refilled c'.get_buf },
            ))
  unfolding Policy.has
  history-lossless elapsed key =
      let first =
        starts-IsWhole order visit items none_due fuel price nonneg fl source config positive small
          (spent calls) c enough made in
      let (h, x, k) =
        perform_all-IsWhole order visit items none_due fuel price nonneg config.max_cost positive
          calls (λ j. none) c c' plain fixed first run in
      (
        x.held key ∙ whole_if _ (replay_all calls (λ j. none) key) (k.full key),
        get-IsExact elapsed key (replay_all calls (λ j. none)) c' h x
            ∙ ap (λ v. ok (v, record c' { get_buf = refilled c'.get_buf }))
                (sym (shown_if elapsed _ (replay_all calls (λ j. none) key))
                  ∙ ap (shown elapsed 0)
                      (whole_if _ (replay_all calls (λ j. none) key) (k.full key))),
      )
