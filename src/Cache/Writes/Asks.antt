-- ===== src/Cache/Writes/Asks.antt =====
-- A `set_with_ttl` that returns has had an answer of the policy.
use memory_cache_rust.Prelude.{
  ℕ, ◌≡◌, sym, ◌∙◌, Bool, true, false, List, Run, ok, >>=-ok, >>=-eq-ok, if◌then◌else◌,
}
use memory_cache_rust.Prelude.Int.{ℤ}
use memory_cache_rust.Prelude.HashMap.{HashMap}
use memory_cache_rust.Cache.{Cache, insert_new, insert_update, set_until}
use memory_cache_rust.Cache.Evict.{Stocked}
use memory_cache_rust.Cache.Writes.{store_of, item_of, Dated-item}
use memory_cache_rust.Item.{Item}
use memory_cache_rust.Policy
use memory_cache_rust.Policy.{DefaultPolicy}
use memory_cache_rust.SampledLfu.{PolicyPair}
use memory_cache_rust.Store.Refine.{matches, update-Changed}
use memory_cache_rust.Store.View.{view}

module _ {V : Type 0} (order : HashMap ℕ ℤ → List PolicyPair) (fuel key conflict : ℕ) (value : V)
    (cost : ℤ) (ttl : ℕ) (c : Cache V) (w : Stocked (store_of c)) (r : Bool × Cache V)
    (e : set_until order fuel key conflict value cost ttl c ≡ ok r) where
  pub known-asks :
      matches conflict (view (store_of c) key) ≡ true
      → (p : DefaultPolicy) × (Policy.update key cost c.policy ≡ ok p)
  unfolding set_until insert_update
  known-asks known =
      let item : Item V = item_of key conflict value cost ttl in
      let (s', stored, ch) =
        update-Changed item (store_of c) w.valid (Dated-item ttl (view (store_of c) key)) in
      let chosen : Run (Cache V) =
        if matches conflict (view (store_of c) key)
        then insert_update order fuel item s' c
        else insert_new order fuel item s' c in
      let (c', run, same) = >>=-eq-ok chosen (λ c'. ok (true, c')) (sym (>>=-ok stored _) ∙ e) in
      let run' : insert_update order fuel item s' c ≡ ok c' = (rw known at run) in
      let (p, asked, kept) = >>=-eq-ok (Policy.update key cost c.policy) _ run' in (p, asked)

  pub unknown-asks :
      matches conflict (view (store_of c) key) ≡ false
      → (a : DefaultPolicy × List (Item V) × Bool) × (Policy.add order fuel key cost c.policy
          ≡ ok a)
  unfolding set_until insert_new
  unknown-asks unknown =
      let item : Item V = item_of key conflict value cost ttl in
      let (s', stored, ch) =
        update-Changed item (store_of c) w.valid (Dated-item ttl (view (store_of c) key)) in
      let chosen : Run (Cache V) =
        if matches conflict (view (store_of c) key)
        then insert_update order fuel item s' c
        else insert_new order fuel item s' c in
      let (c', run, same) = >>=-eq-ok chosen (λ c'. ok (true, c')) (sym (>>=-ok stored _) ∙ e) in
      let run' : insert_new order fuel item s' c ≡ ok c' = (rw unknown at run) in
      let (a, asked, kept) = >>=-eq-ok (Policy.add order fuel key cost c.policy) _ run' in
      (a, asked)
