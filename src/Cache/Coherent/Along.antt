-- ===== src/Cache/Coherent/Along.antt =====
-- Along a history of calls, every key of the store keeps its cost in the policy.
use memory_cache_rust.Prelude.{
  All, ℕ, ◌≡◌, inl, inr, refl, sym, ◌∙◌, false, List, [], ◌∷◌, Option, none, some, ok, >>=-ok,
  >>=-eq-ok, subst_ok, is_some, nat_eq, nat_beq, Bool-cases, if◌then◌else◌, arith,
}
use mathlib.Core.Path.{subst}
use memory_cache_rust.Prelude.Int.{ℤ}
use memory_cache_rust.Prelude.HashMap.{HashMap}
use memory_cache_rust.Bloom.{Floats}
use memory_cache_rust.Cache.{Cache, Config, with_hasher}
use memory_cache_rust.Cache.Coherent.Agree.{stored, IsCoherent, known-Coherent, unknown-Coherent}
use memory_cache_rust.Cache.Coherent.Costs.{del-lost}
use memory_cache_rust.Cache.Evict.{view-Changed, any_conflict}
use memory_cache_rust.Cache.Expiry.{expiry}
use memory_cache_rust.Cache.History.Timed.{perform-until}
use memory_cache_rust.Cache.History.{
  Call, get_call, set_call, del_call, clean_call, perform, perform_all,
}
use memory_cache_rust.Cache.History.Answers.{
  null_or_Stocked, del-null, clean_up-null, clean_up-kept, clash, perform-Healthy,
}
use memory_cache_rust.Cache.History.Sound.{IsHealthy, IsHealthy-IsReady, with_hasher-Healthy}
use memory_cache_rust.Cache.Reads.{get-shown_by}
use memory_cache_rust.Cache.Writes.{store_of, del_lem}
use memory_cache_rust.Policy
use memory_cache_rust.Policy.{DefaultPolicy}
use memory_cache_rust.SampledLfu.{PolicyPair}
use memory_cache_rust.Store.{Store}
use memory_cache_rust.Store.Refine.{matches}
use memory_cache_rust.Store.View.{view, Changed}

-- A deletion names no conflict hash, as that of an integer key.
abbrev pub IsPlain : {V : Type 0} → Call V → Type 0
IsPlain (get_call elapsed key conflict) = Unit
IsPlain (set_call clock key conflict value cost ttl) = Unit
IsPlain (del_call key conflict) = conflict ≡ 0
IsPlain (clean_call now) = Unit

unknown : {A : Type 0} (o : Option A) → is_some o ≡ false → o ≡ none
unknown none e = refl
unknown (some a) e = ground arith

module _ {V : Type 0} where
  same_store :
      (p : DefaultPolicy) (o o' : Option (Store V)) → o ≡ o' → IsCoherent p o → IsCoherent p o'
  same_store p o o' e k = subst (IsCoherent p) e k

  del-Coherent :
      (key conflict : ℕ) (p : DefaultPolicy) (s s' : Store V)
      → conflict ≡ 0
      → IsCoherent p (some s)
      → Changed key (if matches conflict (view s key) then none else view s key) s s'
      → IsCoherent (Policy.del key p) (some s')
  unfolding Policy.del
  del-Coherent key conflict p s s' plain k ch j gone =
      view-Changed key _ s s' j ch ∙ elim (Bool-cases (nat_beq key j)) [
        | inl q ↦ rw (q, plain) (any_conflict (view s key))
        | inr q ↦ rw q (elim (del-lost key p.evict j gone) [
          | inl bad ↦ ground (arith, q, bad)
          | inr before ↦ k j before
        ])
      ]

module _ {V : Type 0} (order : HashMap ℕ ℤ → List PolicyPair) (items : HashMap ℕ ℕ → List (ℕ × ℕ))
    (none_due : items [] ≡ []) (fuel : ℕ) where
  perform-Coherent :
      (call : Call V) (c c' : Cache V)
      → IsPlain call
      → IsHealthy c
      → IsCoherent c.policy c.store
      → perform order items fuel call c ≡ ok c'
      → IsCoherent c'.policy c'.store
  unfolding perform
  perform-Coherent (get_call elapsed key conflict) c c' plain h k e =
      subst_ok (λ d. IsCoherent d.policy d.store)
        (sym (>>=-ok (get-shown_by elapsed key conflict c (IsHealthy-IsReady c h)) _) ∙ e) k
  perform-Coherent (set_call clock key conflict value cost ttl) c c' plain h k e =
      let (r, run, same) =
        perform-until order items fuel clock key conflict value cost ttl c c' e in
      subst_ok (λ d. IsCoherent d.policy d.store) same
        (elim (Bool-cases (matches conflict (view (store_of c) key))) [
          | inl known ↦
              known-Coherent order fuel key conflict value cost (expiry clock ttl) c r.1 r.0 h k run
                known
          | inr new ↦
              unknown-Coherent order fuel key conflict value cost (expiry clock ttl) c r.1 r.0 h k
                run new
        ])
  perform-Coherent (del_call key conflict) c c' plain h k e = elim (null_or_Stocked c h) [
    | inl null ↦ absurd (clash (del-null key conflict c null) e)
    | inr (s, there, w) ↦
        let (s', run, w', ch) = del_lem key conflict c s there w in
        subst_ok (λ d. IsCoherent d.policy d.store) (sym run ∙ e)
          (del-Coherent key conflict c.policy s s' plain
            (same_store c.policy c.store (some s) there k) ch)
  ]
  perform-Coherent (clean_call now) c c' plain h k e = elim (null_or_Stocked c h) [
    | inl null ↦ absurd (clash (clean_up-null items now c null) e)
    | inr (s, there, w) ↦
        subst_ok (λ d. IsCoherent d.policy d.store)
          (sym (clean_up-kept items none_due now c s there) ∙ e)
          (same_store c.policy c.store (some s) there k)
  ]

  perform_all-Coherent :
      (calls : List (Call V)) (c c' : Cache V)
      → All IsPlain calls
      → IsHealthy c
      → IsCoherent c.policy c.store
      → perform_all order items fuel calls c ≡ ok c'
      → IsCoherent c'.policy c'.store
  unfolding perform_all
  perform_all-Coherent [] c c' plain h k e = subst_ok (λ d. IsCoherent d.policy d.store) e k
  perform_all-Coherent (call ∷ calls) c c' plain h k e =
      let (c1, run, rest) = >>=-eq-ok (perform order items fuel call c) _ e in
      let (h1, built) = perform-Healthy order items none_due fuel call c c1 h run in
      perform_all-Coherent calls c1 c' plain.1 h1 (perform-Coherent call c c1 plain.0 h k run) rest

  -- After any history of the calls `get`, `set_with_ttl`, `del` and `clean_up` on a new cache that
  -- has returned, where no deletion names a conflict hash, a key that the policy denies to have is
  -- not in the store: what the store holds has its cost in the policy. This is where an empty map
  -- has nothing to iterate over.
  pub history-Coherent :
      (fl : Floats) (source : ℕ) (config : Config) (calls : List (Call V)) (c c' : Cache V)
      → All IsPlain calls
      → with_hasher fl source config ≡ ok c
      → perform_all order items fuel calls c ≡ ok c'
      → (key : ℕ) → Policy.has key c'.policy ≡ false
      → stored key c'.store ≡ none
  unfolding Policy.has
  history-Coherent fl source config calls c c' plain made run key out =
      let (h, null) = with_hasher-Healthy fl source config c made in
      perform_all-Coherent calls c c' plain h
        (same_store c.policy none c.store (sym null) (λ j gone. refl)) run key (unknown _ out)
