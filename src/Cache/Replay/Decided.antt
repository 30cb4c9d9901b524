-- ===== src/Cache/Replay/Decided.antt =====
-- Which histories return on one cache of src/cache.rs, where the insertions fit its capacity together.
use memory_cache_rust.Prelude.{
  All, ℕ, ◌+◌, ◌≡◌, ◌⊎◌, inl, inr, refl, sym, ◌∙◌, ap, Bool, true, false, ◌&&◌, List, [], ◌∷◌,
  Option, none, some, Run, ok, panic, >>=-ok, is_some, nat_eq, Bool-cases, arith,
}
use mathlib.Core.Path.{subst}
use memory_cache_rust.Prelude.Int.{ℤ, pos_part, neg_part}
use memory_cache_rust.Prelude.HashMap.{HashMap}
use memory_cache_rust.Cache.{Cache}
use memory_cache_rust.Cache.Coherent.Charged.{IsFixed}
use memory_cache_rust.Cache.Expiry.{expiry, timely}
use memory_cache_rust.Cache.History.Timed.{perform-timely, perform-untimely}
use memory_cache_rust.Cache.History.{
  Call, get_call, set_call, del_call, clean_call, perform, perform_all,
}
use memory_cache_rust.Cache.History.Answers.{
  null_or_Stocked, del-null, clean_up-null, clean_up-kept, perform-Healthy,
}
use memory_cache_rust.Cache.History.Sound.{IsHealthy-IsReady, store_of-Stocked}
use memory_cache_rust.Cache.Reads.{get-shown_by}
use memory_cache_rust.Cache.Replay.Along.{perform-IsExact}
use memory_cache_rust.Cache.Replay.Exact.{has-matches}
use memory_cache_rust.Cache.Replay.Lossless.{IsWhole, perform-IsRoomy}
use memory_cache_rust.Cache.Replay.Roomy.{named, spent, fits_beside, add_fitting}
use memory_cache_rust.Cache.Replay.Spared.{is_none}
use memory_cache_rust.Cache.Replay.{IsInteger, replay}
use memory_cache_rust.Cache.Total.{well_placed}
use memory_cache_rust.Cache.Writes.{store_of, set_until_known, set_until_new, del_lem}
use memory_cache_rust.Item.{Node}
use memory_cache_rust.Metrics.{IsUnused}
use memory_cache_rust.Policy
use memory_cache_rust.Policy.{DefaultPolicy}
use memory_cache_rust.Policy.Kept.{del-unused}
use memory_cache_rust.Policy.Samples.{IsOrder}
use memory_cache_rust.Ring.{refilled}
use memory_cache_rust.SampledLfu
use memory_cache_rust.SampledLfu.{PolicyPair}
use memory_cache_rust.SampledLfu.Costs.{update_if_has_lem}
use memory_cache_rust.Store.{Store}
use memory_cache_rust.Store.Refine.{matches}
use memory_cache_rust.Store.View.{view}

-- An update of the policy returns, and keeps the metrics.
update_returns :
    (key : ℕ) (cost : ℤ) (p : DefaultPolicy)
    → SampledLfu.Costs.IsValid p.evict
    → IsUnused p.evict.metrics
    → (q : DefaultPolicy) × (Policy.update key cost p ≡ ok q) × IsUnused q.evict.metrics
unfolding Policy.update
update_returns key cost p v unused =
    let (s, run, w, costs, same, cap, noted) = update_if_has_lem key cost p.evict v unused in
    (record p { evict = s }, >>=-ok run _, subst IsUnused (sym noted) unused)

add-same_metrics :
    (key : ℕ) (cost : ℤ) (s : SampledLfu.SampledLfu)
    → (SampledLfu.add key cost s).metrics ≡ s.metrics
unfolding SampledLfu.add
add-same_metrics key cost s = refl

module _ {V : Type 0} (order : HashMap ℕ ℤ → List PolicyPair) (visit : IsOrder order)
    (items : HashMap ℕ ℕ → List (ℕ × ℕ)) (none_due : items [] ≡ []) (fuel : ℕ) (price : ℕ → ℤ)
    (nonneg : (key : ℕ) → neg_part (price key) ≡ 0) (cap : ℤ) (positive : neg_part cap ≡ 0) where
  -- The call returns, with no metrics counted.
  abbrev Goes : Call V → Cache V → Type 0
  Goes call c =
      (c1 : Cache V) × (perform order items fuel call c ≡ ok c1) × IsUnused c1.policy.evict.metrics

  set-Goes :
      (clock : Option ℕ) (key : ℕ) (value : V) (cost : ℤ) (ttl left : ℕ) (m : ℕ → Option (Node V))
      (c : Cache V)
      → cost ≡ price key
      → IsWhole order visit items none_due fuel price nonneg cap positive m (pos_part cost + left) c
      → IsUnused c.policy.evict.metrics
      → timely clock ttl ≡ true
      → Goes (set_call clock key 0 value cost ttl) c
  set-Goes clock key value cost ttl left m c fixed (h, x, k) unused ready =
      let goes = λ (r : Bool × Cache V).
        perform-timely order items fuel clock key 0 value cost ttl c r ready in
      let w = store_of-Stocked c h in
      let agree = has-matches key m c x in
      elim (Bool-cases (matches 0 (view (store_of c) key))) [
        | inl known ↦
            let (p, asked, noted) = update_returns key cost c.policy k.priced.0.valid unused in
            let (s, run, w', ch) =
              set_until_known order fuel key 0 value cost (expiry clock ttl) c p w known asked in
            (_, goes _ run, noted)
        | inr fresh ↦
            let absent = is_none _ (sym agree ∙ fresh) in
            let q : DefaultPolicy = record c.policy {
              evict = SampledLfu.add key cost c.policy.evict;
            } in
            let asked =
              add_fitting order fuel key cost c.policy k.priced.0 (rw fixed (nonneg key)) absent
                (fits_beside price cap positive key cost left fixed (nonneg key) m c.policy k) in
            let (s, run, w', same) =
              set_until_new order fuel key 0 value cost (expiry clock ttl) c q [] true w h.metered
                fresh asked in
            (_, goes _ run, subst IsUnused (sym (add-same_metrics key cost c.policy.evict)) unused)
      ]

  -- A run returns if `b` holds, and else panics.
  abbrev Decided : Bool → Run (Cache V) → Type 0
  Decided b run = ((b ≡ true) × ((c' : Cache V) × (run ≡ ok c'))) ⊎ ((b ≡ false) × (run ≡ panic))

  goes_on :
      (call : Call V) (calls : List (Call V)) (c c1 : Cache V) (b : Bool)
      → perform order items fuel call c ≡ ok c1
      → Decided b (perform_all order items fuel calls c1)
      → Decided b (perform_all order items fuel (call ∷ calls) c)
  unfolding perform_all
  goes_on call calls c c1 b run d = rw run d

  stops :
      (call : Call V) (calls : List (Call V)) (c : Cache V) (b : Bool)
      → perform order items fuel call c ≡ panic
      → b ≡ false
      → Decided b (perform_all order items fuel (call ∷ calls) c)
  unfolding perform_all
  stops call calls c b run out = inr (out, rw run refl)

  not_built :
      {o : Option (Store V)} (b rest : Bool) → o ≡ none → is_some o ≡ b → (b && rest) ≡ false
  not_built b rest null e = ground (arith, sym e ∙ ap is_some null)

  was_built :
      {run : Run (Cache V)} (b rest : Bool) (o : Option (Store V)) (s : Store V)
      → o ≡ some s
      → is_some o ≡ b
      → Decided rest run
      → Decided (b && rest) run
  was_built true rest o s there e d = d
  was_built false rest o s there e d = absurd (ground (arith, sym e ∙ ap is_some there))

  abbrev Whole : (ℕ → Option (Node V)) → ℕ → Cache V → Type 0
  Whole m left c = IsWhole order visit items none_due fuel price nonneg cap positive m left c

  -- What holds after a call that has returned.
  next-Whole :
      (call : Call V) (left : ℕ) (m : ℕ → Option (Node V)) (c c1 : Cache V)
      → IsInteger call
      → IsFixed price call
      → Whole m (named call + left) c
      → perform order items fuel call c ≡ ok c1
      → Whole (replay call m) left c1
  next-Whole call left m c c1 plain fixed (h, x, k) run =
      let (h1, built) = perform-Healthy order items none_due fuel call c c1 h run in
      (
        h1,
        perform-IsExact order visit items none_due fuel call m c c1 plain h x run,
        perform-IsRoomy order visit items none_due fuel price nonneg cap positive call left m c c1
            plain fixed (h, x, k) run,
      )

  pub perform_all-Decided :
      (calls : List (Call V)) (m : ℕ → Option (Node V)) (c : Cache V) (b : Bool)
      → is_some c.store ≡ b
      → All IsInteger calls
      → All (IsFixed price) calls
      → Whole m (spent calls) c
      → IsUnused c.policy.evict.metrics
      → Decided (well_placed b calls) (perform_all order items fuel calls c)
  perform_all-Decided [] m c b e plain fixed w unused = unfold perform_all in inl (refl, (c, refl))
  perform_all-Decided (get_call elapsed key conflict ∷ calls) m c b e plain fixed (h, x, k) unused =
      let call = get_call elapsed key conflict in
      let c1 : Cache V = record c { get_buf = refilled c.get_buf } in
      let run : perform order items fuel call c ≡ ok c1 =
        unfold perform in >>=-ok (get-shown_by elapsed key conflict c (IsHealthy-IsReady c h)) _ in
      goes_on call calls c c1 (well_placed b calls) run (
        perform_all-Decided calls m c1 b e plain.1 fixed.1
          (next-Whole call (spent calls) m c c1 plain.0 fixed.0 (h, x, k) run) unused)
  perform_all-Decided (set_call clock key conflict value cost ttl ∷ calls) m c b e plain fixed w
        unused =
      let call = set_call clock key conflict value cost ttl in
      let rest = well_placed true calls in
      elim (Bool-cases (timely clock ttl)) [
        | inl ready ↦
            let (c1, run, noted) : Goes call c =
              rw plain.0
                (set-Goes clock key value cost ttl (spent calls) m c fixed.0 w unused ready) in
            let (h1, built) = perform-Healthy order items none_due fuel call c c1 w.0 run in
            rw ready (
              goes_on call calls c c1 rest run (
                perform_all-Decided calls (replay call m) c1 true built plain.1 fixed.1
                  (next-Whole call (spent calls) m c c1 plain.0 fixed.0 w run) noted))
        | inr late ↦
            stops call calls c (timely clock ttl && rest)
              (perform-untimely order items fuel clock key conflict value cost ttl c late)
              (rw late refl)
      ]
  perform_all-Decided (del_call key conflict ∷ calls) m c b e plain fixed (h, x, k) unused =
      let call = del_call key conflict in
      let rest = well_placed b calls in
      elim (null_or_Stocked c h) [
        | inl null ↦
            stops call calls c (b && rest) (unfold perform in del-null key conflict c null)
              (not_built b rest null e)
        | inr (s, there, w) ↦
            let (s', run, w', ch) = del_lem key conflict c s there w in
            let c1 : Cache V = record c { store = some s'; policy = Policy.del key c.policy } in
            let run' : perform order items fuel call c ≡ ok c1 = unfold perform in run in
            goes_on call calls c c1 (b && rest) run' (
              was_built b rest c.store s there e (
                perform_all-Decided calls (replay call m) c1 b (sym (ap is_some there) ∙ e) plain.1
                  fixed.1 (next-Whole call (spent calls) m c c1 plain.0 fixed.0 (h, x, k) run')
                  (unfold Policy.del in del-unused key c.policy.evict unused)))
      ]
  perform_all-Decided (clean_call now ∷ calls) m c b e plain fixed (h, x, k) unused =
      let call : Call V = clean_call now in
      let rest = well_placed b calls in
      elim (null_or_Stocked c h) [
        | inl null ↦
            stops call calls c (b && rest) (unfold perform in clean_up-null items now c null)
              (not_built b rest null e)
        | inr (s, there, w) ↦
            let c1 : Cache V = record c { store = some s } in
            let run' : perform order items fuel call c ≡ ok c1 =
              unfold perform in clean_up-kept items none_due now c s there in
            goes_on call calls c c1 (b && rest) run' (
              was_built b rest c.store s there e (
                perform_all-Decided calls m c1 b (sym (ap is_some there) ∙ e) plain.1 fixed.1
                  (next-Whole call (spent calls) m c c1 plain.0 fixed.0 (h, x, k) run') unused))
      ]
