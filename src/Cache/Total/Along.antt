-- ===== src/Cache/Total/Along.antt =====
-- Histories of calls on one cache of src/cache.rs that return, and those that panic.
use memory_cache_rust.Prelude.{
  All, ℕ, ◌+◌, ◌≡◌, ◌⊎◌, inl, inr, refl, sym, ◌∙◌, ap, Bool, true, false, ◌&&◌, List, [], ◌∷◌,
  Option, none, some, Run, ok, panic, >>=-ok, is_some, nat_eq, Bool-cases, arith,
}
use memory_cache_rust.Prelude.Int.{ℤ, neg_part, ◌≤ℤ◌}
use memory_cache_rust.Prelude.HashMap.{HashMap, get}
use memory_cache_rust.Cache.{Cache, set_until}
use memory_cache_rust.Cache.Coherent.Charged.{IsFixed}
use memory_cache_rust.Cache.Expiry.{expiry, timely}
use memory_cache_rust.Cache.History.Timed.{perform-timely, perform-untimely}
use memory_cache_rust.Cache.History.{
  Call, get_call, set_call, del_call, clean_call, perform, perform_all,
}
use memory_cache_rust.Cache.History.Answers.{
  null_or_Stocked, del-null, clean_up-null, clean_up-kept,
}
use memory_cache_rust.Cache.History.Sound.{
  IsHealthy, IsHealthy-IsReady, stored-Healthy, store_of-Stocked,
}
use memory_cache_rust.Cache.Reads.{get-shown_by}
use memory_cache_rust.Cache.Replay.Spared.{update-keys, is_none}
use memory_cache_rust.Cache.Total.Steady.{IsSteady, add-IsSteady, update-IsSteady, del-IsSteady}
use memory_cache_rust.Cache.Total.{well_placed}
use memory_cache_rust.Cache.Writes.{store_of, set_until_known, set_until_new, del_lem}
use memory_cache_rust.Policy
use memory_cache_rust.Policy.{DefaultPolicy}
use memory_cache_rust.Policy.Samples.{IsOrder}
use memory_cache_rust.Ring.{refilled}
use memory_cache_rust.SampledLfu.{PolicyPair}
use memory_cache_rust.Store.{Store}
use memory_cache_rust.Store.Refine.{matches}
use memory_cache_rust.Store.View.{view}

module _ {V : Type 0} (order : HashMap ℕ ℤ → List PolicyPair) (visit : IsOrder order)
    (items : HashMap ℕ ℕ → List (ℕ × ℕ)) (none_due : items [] ≡ []) (fuel : ℕ) (each m : ℤ)
    (nonneg : neg_part each ≡ 0) where
  -- A cache that is healthy, with a steady policy.
  abbrev pub IsRunning : Cache V → Type 0
  IsRunning c = IsHealthy c × IsSteady each m nonneg c.policy

  module _ (key conflict : ℕ) (value : V) (ttl : ℕ) (c : Cache V) (h : IsHealthy c)
      (k : IsSteady each m nonneg c.policy) where
    -- An insertion returns, with a store, and its key then has a cost, where the store and the policy agree on the key.

    pub set-returns :
        (c' : Cache V) × (set_until order (fuel + 3) key conflict value each ttl c ≡ ok (true, c'))
        × IsRunning c'
        × (is_some c'.store ≡ true)
        × (matches conflict (view (store_of c) key) ≡ is_some (get key c.policy.evict.key_costs)
            → each ≤ℤ m
            → is_some (get key c'.policy.evict.key_costs) ≡ true)
    set-returns =
        let w = store_of-Stocked c h in
        elim (Bool-cases (matches conflict (view (store_of c) key))) [
          | inl known ↦
              let (p, asked, k') = update-IsSteady each m nonneg key c.policy k in
              let (s, run, w', ch) =
                set_until_known order (fuel + 3) key conflict value each ttl c p w known asked in
              (
                _,
                run,
                (stored-Healthy c s p h w', k'),
                refl,
                λ agree fits. update-keys key each c.policy p asked key ∙ (sym agree ∙ known),
              )
          | inr unknown ↦
              let ((p, victims, added), asked, k', reported) =
                add-IsSteady each m nonneg key c.policy k order visit fuel in
              let (s, run, w', same) =
                set_until_new order (fuel + 3) key conflict value each ttl c p victims added w
                  h.metered unknown asked in
              (
                _,
                run,
                (stored-Healthy c s p h w', k'),
                refl,
                λ agree fits. reported (is_none _ (sym agree ∙ unknown)) fits,
              )
        ]

  -- A run returns if `b` holds, and else panics.
  abbrev pub Decided : Bool → Run (Cache V) → Type 0
  Decided b run =
      ((b ≡ true) × ((c' : Cache V) × (run ≡ ok c') × IsRunning c')) ⊎ ((b ≡ false) × (run ≡ panic))

  not_built :
      {o : Option (Store V)} (b rest : Bool) → o ≡ none → is_some o ≡ b → (b && rest) ≡ false
  not_built b rest null e = ground (arith, sym e ∙ ap is_some null)

  built :
      {o : Option (Store V)} {run : Run (Cache V)} (b rest : Bool) (s : Store V)
      → o ≡ some s
      → is_some o ≡ b
      → Decided rest run
      → Decided (b && rest) run
  built true rest s there e d = d
  built false rest s there e d = absurd (ground (arith, sym e ∙ ap is_some there))

  -- A run that goes on from a call that has returned.
  goes_on :
      (call : Call V) (calls : List (Call V)) (c c1 : Cache V) (b : Bool)
      → perform order items (fuel + 3) call c ≡ ok c1
      → Decided b (perform_all order items (fuel + 3) calls c1)
      → Decided b (perform_all order items (fuel + 3) (call ∷ calls) c)
  unfolding perform_all
  goes_on call calls c c1 b run d = rw run d

  stops :
      (call : Call V) (calls : List (Call V)) (c : Cache V) (b : Bool)
      → perform order items (fuel + 3) call c ≡ panic
      → b ≡ false
      → Decided b (perform_all order items (fuel + 3) (call ∷ calls) c)
  unfolding perform_all
  stops call calls c b run out = inr (out, rw run refl)

  pub perform_all-Decided :
      (calls : List (Call V)) (c : Cache V) (b : Bool)
      → is_some c.store ≡ b
      → All (IsFixed (λ key. each)) calls
      → IsRunning c
      → Decided (well_placed b calls) (perform_all order items (fuel + 3) calls c)
  perform_all-Decided [] c b e fixed r = unfold perform_all in inl (refl, (c, refl, r))
  perform_all-Decided (get_call elapsed key conflict ∷ calls) c b e fixed (h, k) =
      let c1 : Cache V = record c { get_buf = refilled c.get_buf } in
      goes_on (get_call elapsed key conflict) calls c c1 (well_placed b calls)
        (unfold perform in >>=-ok (get-shown_by elapsed key conflict c (IsHealthy-IsReady c h)) _)
        (perform_all-Decided calls c1 b e fixed.1
          (record { stocked = h.stocked; buffered = inr refl; metered = h.metered }, k))
  perform_all-Decided (set_call clock key conflict value cost ttl ∷ calls) c b e fixed (h, k) =
      let call = set_call clock key conflict value cost ttl in
      let rest = well_placed true calls in
      elim (Bool-cases (timely clock ttl)) [
        | inl h' ↦
            let (c1, run, r1, built, there) =
              set-returns key conflict value (expiry clock ttl) c h k in
            rw h' (
              goes_on call calls c c1 rest
                (perform-timely order items (fuel + 3) clock key conflict value cost ttl c
                  (true, c1) h' (rw fixed.0 run))
                (perform_all-Decided calls c1 true built fixed.1 r1))
        | inr h' ↦
            stops call calls c (timely clock ttl && rest)
              (perform-untimely order items (fuel + 3) clock key conflict value cost ttl c h')
              (rw h' refl)
      ]
  perform_all-Decided (del_call key conflict ∷ calls) c b e fixed (h, k) =
      let rest = well_placed b calls in
      elim (null_or_Stocked c h) [
        | inl null ↦
            stops (del_call key conflict) calls c (b && rest)
              (unfold perform in del-null key conflict c null) (not_built b rest null e)
        | inr (s, there, w) ↦
            let (s', run, w', ch) = del_lem key conflict c s there w in
            let c1 : Cache V = record c { store = some s'; policy = Policy.del key c.policy } in
            goes_on (del_call key conflict) calls c c1 (b && rest) (unfold perform in run) (
              built b rest s there e (
                perform_all-Decided calls c1 b (sym (ap is_some there) ∙ e) fixed.1 (
                  stored-Healthy c s' (Policy.del key c.policy) h w',
                  del-IsSteady each m nonneg key c.policy k,
                )))
      ]
  perform_all-Decided (clean_call now ∷ calls) c b e fixed (h, k) =
      let rest = well_placed b calls in
      elim (null_or_Stocked c h) [
        | inl null ↦
            stops (clean_call now) calls c (b && rest)
              (unfold perform in clean_up-null items now c null) (not_built b rest null e)
        | inr (s, there, w) ↦
            let c1 : Cache V = record c { store = some s } in
            goes_on (clean_call now) calls c c1 (b && rest)
              (unfold perform in clean_up-kept items none_due now c s there)
              (built b rest s there e (
                perform_all-Decided calls c1 b (sym (ap is_some there) ∙ e) fixed.1
                  (stored-Healthy c s c.policy h w, k)))
      ]
