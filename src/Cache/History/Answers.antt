-- ===== src/Cache/History/Answers.antt =====
-- What the calls of a history return.
use memory_cache_rust.Prelude.{
  ℕ, ◌≡◌, ◌⊎◌, refl, ap, sym, ◌∙◌, Bool, true, false, ◌||◌, List, [], ◌∷◌, Option, none, some, Run,
  ok, panic, >>=-ok, >>=-eq-ok, subst_ok, Option-cases, inl, inr, arith, is_some,
}
use memory_cache_rust.Prelude.Int.{ℤ}
use memory_cache_rust.Prelude.HashMap.{HashMap}
use memory_cache_rust.Bloom.{Floats}
use memory_cache_rust.Cache
use memory_cache_rust.Cache.{
  Cache, Config, with_hasher, set_until, init_store, insert_new, insert_update, del, clean_up,
}
use memory_cache_rust.Cache.Evict.{Stocked}
use memory_cache_rust.Cache.History.{
  Call, get_call, set_call, del_call, clean_call, perform, perform_all,
}
use memory_cache_rust.Cache.Reads.{get-shown_by}
use memory_cache_rust.Cache.Writes.{del_lem}
use memory_cache_rust.Cache.Expiry.{expiry}
use memory_cache_rust.Cache.History.Timed.{perform-until}
use memory_cache_rust.Cache.History.Sound.{
  IsHealthy, IsHealthy-IsReady, with_hasher-Healthy, stored-Healthy, set_until-Healthy,
}
use memory_cache_rust.Policy
use memory_cache_rust.Policy.{DefaultPolicy}
use memory_cache_rust.SampledLfu.{PolicyPair}
use memory_cache_rust.Store.{Store}
use memory_cache_rust.Store.Reads.{clean_up-same}

or_none : (a : Bool) → (a || false) ≡ a
or_none a = ground arith

or_first : (a b d : Bool) → (b || (a || d)) ≡ ((a || b) || d)
or_first a b d = ground arith

-- A call that builds the store.
abbrev pub stores : {V : Type 0} → Call V → Bool
stores (get_call elapsed key conflict) = false
stores (set_call clock key conflict value cost ttl) = true
stores (del_call key conflict) = false
stores (clean_call now) = false

abbrev pub any_stores : {V : Type 0} → List (Call V) → Bool
any_stores [] = false
any_stores (call ∷ calls) = stores call || any_stores calls

module _ {V : Type 0} where
  -- The store is null, or one with a value in every node.
  pub null_or_Stocked :
      (c : Cache V)
      → IsHealthy c
      → (c.store ≡ none) ⊎ ((s : Store V) × (c.store ≡ some s) × Stocked s)
  null_or_Stocked c h = elim (Option-cases c.store) [
    | inl e ↦ inl e
    | inr (s, e) ↦ inr (s, e, h.stocked s e)
  ]

  pub del-null : (key conflict : ℕ) (c : Cache V) → c.store ≡ none → del key conflict c ≡ panic
  unfolding del
  del-null key conflict c e = rw e refl

  pub clean_up-null :
      (items : HashMap ℕ ℕ → List (ℕ × ℕ)) (now : ℕ) (c : Cache V)
      → c.store ≡ none
      → clean_up items now c ≡ panic
  unfolding clean_up
  clean_up-null items now c e = rw e refl

  pub clean_up-kept :
      (items : HashMap ℕ ℕ → List (ℕ × ℕ)) (none_due : items [] ≡ []) (now : ℕ) (c : Cache V)
      (s : Store V)
      → c.store ≡ some s
      → clean_up items now c ≡ ok (record c { store = some s })
  unfolding clean_up
  clean_up-kept items none_due now c s e =
      rw e (>>=-ok (clean_up-same items now s c.policy none_due) _)

  pub clash : {c' : Cache V} {m : Run (Cache V)} → m ≡ panic → m ≡ ok c' → ⊥
  clash p q = ground (arith, sym p ∙ q)

module _ {V : Type 0} (order : HashMap ℕ ℤ → List PolicyPair) (items : HashMap ℕ ℕ → List (ℕ × ℕ))
    (none_due : items [] ≡ []) (fuel : ℕ) where
  -- What one call keeps, and whether the store is built after it.
  abbrev pub Kept : Cache V → Bool → Cache V → Type 0
  Kept c b c' = IsHealthy c' × (is_some c'.store ≡ (b || is_some c.store))

  pub perform-Healthy :
      (call : Call V) (c c' : Cache V)
      → IsHealthy c
      → perform order items fuel call c ≡ ok c'
      → Kept c (stores call) c'
  unfolding perform
  perform-Healthy (get_call elapsed key conflict) c c' h e =
      subst_ok (Kept c false)
        (sym (>>=-ok (get-shown_by elapsed key conflict c (IsHealthy-IsReady c h)) _) ∙ e)
        (record { stocked = h.stocked; buffered = inr refl; metered = h.metered }, refl)
  perform-Healthy (set_call clock key conflict value cost ttl) c c' h e =
      let (r, run, same) =
        perform-until order items fuel clock key conflict value cost ttl c c' e in
      subst_ok (Kept c true) same
        (set_until-Healthy order fuel key conflict value cost (expiry clock ttl) c r.1 r.0 h run)
  perform-Healthy (del_call key conflict) c c' h e = elim (null_or_Stocked c h) [
    | inl null ↦ absurd (clash (del-null key conflict c null) e)
    | inr (s, there, w) ↦
        let (s', run, w', ch) = del_lem key conflict c s there w in
        subst_ok (Kept c false) (sym run ∙ e)
          (stored-Healthy c s' (Policy.del key c.policy) h w', sym (ap is_some there))
  ]
  perform-Healthy (clean_call now) c c' h e = elim (null_or_Stocked c h) [
    | inl null ↦ absurd (clash (clean_up-null items now c null) e)
    | inr (s, there, w) ↦
        subst_ok (Kept c false) (sym (clean_up-kept items none_due now c s there) ∙ e)
          (stored-Healthy c s c.policy h w, sym (ap is_some there))
  ]

  perform_all-Healthy :
      (calls : List (Call V)) (c c' : Cache V)
      → IsHealthy c
      → perform_all order items fuel calls c ≡ ok c'
      → Kept c (any_stores calls) c'
  unfolding perform_all
  perform_all-Healthy [] c c' h e = subst_ok (Kept c false) e (h, refl)
  perform_all-Healthy (call ∷ calls) c c' h e =
      let (c1, run, rest) = >>=-eq-ok (perform order items fuel call c) _ e in
      let (h1, built1) = perform-Healthy call c c1 h run in
      let (h', built) = perform_all-Healthy calls c1 c' h1 rest in
      (h', built ∙ rw built1 (or_first (stores call) (any_stores calls) (is_some c.store)))

  module _ (fl : Floats) (source : ℕ) (config : Config) (calls : List (Call V)) (c c' : Cache V)
      (made : with_hasher fl source config ≡ ok c)
      (run : perform_all order items fuel calls c ≡ ok c') where
    -- After any history of the calls `get`, `set_with_ttl`, `del` and `clean_up` on a new cache
    -- that has returned, the store is there exactly if an insertion was among the calls, and then
    -- has its shards, with a value in every node; the buffer is null or full of zeros, and no
    -- metrics have counted. This is where an empty map has nothing to iterate over.
    pub history-Healthy : IsHealthy c' × (is_some c'.store ≡ any_stores calls)
    unfolding with_hasher
    history-Healthy =
        let (fresh, null) = with_hasher-Healthy fl source config c made in
        let (h, built) = perform_all-Healthy calls c c' fresh run in
        (h, built ∙ rw null (or_none (any_stores calls)))

    -- After any history of the calls `get`, `set_with_ttl`, `del` and `clean_up` on a new cache
    -- that has returned, a `get` returns, whatever its key. A `del` and a `clean_up` panic if no
    -- insertion was among the calls, and return if one was. This is where an empty map has nothing
    -- to iterate over.
    pub history-answers :
        (elapsed key conflict now : ℕ)
        → ((r : Option V × Cache V) × (Cache.get elapsed key conflict c' ≡ ok r))
          × (((any_stores calls ≡ false)
                × (del key conflict c' ≡ panic)
                × (clean_up items now c' ≡ panic))
              ⊎ ((any_stores calls ≡ true)
                  × ((r : Cache V) × (del key conflict c' ≡ ok r))
                  × ((r : Cache V) × (clean_up items now c' ≡ ok r))))
    history-answers elapsed key conflict now =
        let (h, built) = history-Healthy in
        (
          (_, get-shown_by elapsed key conflict c' (IsHealthy-IsReady c' h)),
          elim (null_or_Stocked c' h) [
            | inl null ↦ inl (
              sym built ∙ ap is_some null,
              del-null key conflict c' null,
              clean_up-null items now c' null,
            )
            | inr (s, there, w) ↦
                let (s', gone, w', ch) = del_lem key conflict c' s there w in
                inr (
                  sym built ∙ ap is_some there,
                  (_, gone),
                  (_, clean_up-kept items none_due now c' s there),
                )
          ],
        )
