-- ===== src/Cache/Replay/Exact.antt =====
-- After a history of calls for integer keys, the store of src/cache.rs holds the abstract map at the keys of the policy.
use memory_cache_rust.Prelude.{
  ℕ, ◌≡◌, inl, inr, refl, sym, ◌∙◌, ap, Bool, true, false, ◌&&◌, List, Option, none, some, ok,
  subst_ok, is_some, nat_eq, nat_beq, nat_beq_iff, Bool-cases, if◌then◌else◌, arith,
}
use mathlib.Core.Path.{subst}
use memory_cache_rust.Prelude.Int.{ℤ}
use memory_cache_rust.Prelude.HashMap.{HashMap, get}
use memory_cache_rust.Cache.{Cache, set_until}
use memory_cache_rust.Cache.Coherent.Agree.{stored, store_of-stored}
use memory_cache_rust.Cache.Evict.{listed, view-Changed, any_conflict}
use memory_cache_rust.Cache.History.{del_call}
use memory_cache_rust.Cache.History.Sound.{IsHealthy, store_of-Stocked}
use memory_cache_rust.Cache.Replay.Spared.{add-left, get-del, is_none, update-keys}
use memory_cache_rust.Cache.Replay.{written, replay}
use memory_cache_rust.Cache.Writes.{store_of, item_of, set_until_known, set_until_new}
use memory_cache_rust.Cache.Writes.Asks.{known-asks, unknown-asks}
use memory_cache_rust.Item.{Node}
use memory_cache_rust.Policy
use memory_cache_rust.Policy.{DefaultPolicy}
use memory_cache_rust.Policy.Samples.{IsOrder}
use memory_cache_rust.SampledLfu.{PolicyPair}
use memory_cache_rust.Store.{Store, node_of}
use memory_cache_rust.Store.Refine.{matches, admits}
use memory_cache_rust.Store.View.{view, Changed}

module _ {V : Type 0} where
  -- The store holds the map's nodes at the keys of the policy, and nothing else; the map has these keys.
  pub record IsExact (m : ℕ → Option (Node V)) (p : DefaultPolicy) (o : Option (Store V))
      : Type 0 where
    pub held : (j : ℕ) → stored j o ≡ (if is_some (get j p.evict.key_costs) then m j else none)
    pub known : (j : ℕ) → is_some (get j p.evict.key_costs) ≡ true → is_some (m j) ≡ true

  -- The keys of the policy are those of the store.
  pub has-stored :
      (m : ℕ → Option (Node V)) (p : DefaultPolicy) (o : Option (Store V))
      → IsExact m p o
      → (j : ℕ) → is_some (stored j o) ≡ is_some (get j p.evict.key_costs)
  has-stored m p o x j = elim (Bool-cases (is_some (get j p.evict.key_costs))) [
    | inl e ↦ rw (x.held j, e) (x.known j e)
    | inr e ↦ rw (x.held j, e) refl
  ]

  pub matches-is_some : (o : Option (Node V)) → matches 0 o ≡ is_some o
  matches-is_some none = refl
  matches-is_some (some v) = ground arith

  admits-zero : (o : Option (Node V)) → admits 0 o ≡ true
  admits-zero none = refl
  admits-zero (some v) = ground arith

  -- An insertion at a key, where `l` says that a key is a victim's, `a` that the new key is added, `q` that a key is the
  -- new one and `h` that it has had a cost.
  held_after :
      (l a d q h : Bool) (node : Node V) (old mj : Option (Node V))
      → d ≡ true
      → old ≡ (if h then mj else none)
      → (q ≡ true → h ≡ false)
      → (if l then none else if a && d && q then some node else old) ≡ (
          if (if l then false else if a && q then true else h)
          then (if q then some node else mj)
          else none)
  held_after l a d q h node old mj e f g = ground (arith, e, f, g)

  known_after :
      (l a q h : Bool) (node : Node V) (mj : Option (Node V))
      → (h ≡ true → is_some mj ≡ true)
      → (if l then false else if a && q then true else h) ≡ true
      → is_some (if q then some node else mj) ≡ true
  known_after l a true h node mj f g = refl
  known_after l a false h node mj f g = ground (arith, f, g)

  -- The store and the policy agree on a key.
  pub has-matches :
      (key : ℕ) (m : ℕ → Option (Node V)) (c : Cache V)
      → IsExact m c.policy c.store
      → matches 0 (view (store_of c) key) ≡ is_some (get key c.policy.evict.key_costs)
  has-matches key m c x =
      matches-is_some (view (store_of c) key)
      ∙ (ap is_some (store_of-stored c key) ∙ has-stored m c.policy c.store x key)

  module _ (order : HashMap ℕ ℤ → List PolicyPair) (visit : IsOrder order) (fuel key : ℕ)
      (value : V) (cost : ℤ) (ttl : ℕ) (m : ℕ → Option (Node V)) (c c' : Cache V) (b : Bool)
      (h : IsHealthy c) (x : IsExact m c.policy c.store)
      (e : set_until order fuel key 0 value cost ttl c ≡ ok (b, c')) where
    pub known-IsExact :
        matches 0 (view (store_of c) key) ≡ true
        → IsExact (written key 0 value cost ttl m) c'.policy c'.store
    known-IsExact old =
        let w = store_of-Stocked c h in
        let (p, asked) = known-asks order fuel key 0 value cost ttl c w (b, c') e old in
        let (s, run, w', ch) = set_until_known order fuel key 0 value cost ttl c p w old asked in
        let same = update-keys key cost c.policy p asked in
        let new : Node V = node_of (item_of key 0 value cost ttl) in
        subst_ok (λ r. IsExact (written key 0 value cost ttl m) r.1.policy r.1.store) (sym run ∙ e)
          (record {
            held = λ j.
                view-Changed key _ (store_of c) s j ch
                ∙ rw (same j, store_of-stored c j, x.held j)
                    (elim (Bool-cases (nat_beq key j)) [
                      | inr q ↦ rw q refl
                      | inl q ↦
                          let k : key ≡ j = (nat_beq_iff key j).0 q in
                          let here : is_some (get j c.policy.evict.key_costs) ≡ true =
                            subst (λ i. is_some (get i c.policy.evict.key_costs) ≡ true) k
                              (sym (has-matches key m c x) ∙ old) in
                          rw (q, here) refl
                    ]);
            known = λ j there.
                known_after false true (nat_beq key j) (is_some (get j c.policy.evict.key_costs))
                  new (m j) (x.known j) (ground (arith, sym (same j) ∙ there));
          })

    pub new-IsExact :
        matches 0 (view (store_of c) key) ≡ false
        → IsExact (written key 0 value cost ttl m) c'.policy c'.store
    new-IsExact fresh =
        let w = store_of-Stocked c h in
        let ((p, victims, added), asked) =
          unknown-asks order fuel key 0 value cost ttl c w (b, c') e fresh in
        let (s, run, w', same) =
          set_until_new order fuel key 0 value cost ttl c p victims added w h.metered fresh asked in
        let absent = is_none _ (sym (has-matches key m c x) ∙ fresh) in
        let left = add-left order visit key cost fuel c.policy (p, victims, added) absent asked in
        let new : Node V = node_of (item_of key 0 value cost ttl) in
        subst_ok (λ r. IsExact (written key 0 value cost ttl m) r.1.policy r.1.store) (sym run ∙ e)
          (record {
            held = λ j.
                same j
                ∙ rw (left j) (
                    held_after (listed j victims) added (admits 0 (view (store_of c) key))
                      (nat_beq key j) (is_some (get j c.policy.evict.key_costs)) new
                      (view (store_of c) j) (m j) (admits-zero (view (store_of c) key))
                      (store_of-stored c j ∙ x.held j) (λ q. was_out j q absent));
            known = λ j there.
                known_after (listed j victims) added (nat_beq key j)
                  (is_some (get j c.policy.evict.key_costs)) new (m j) (x.known j)
                  (sym (left j) ∙ there);
          })
      where
        was_out :
            (j : ℕ)
            → nat_beq key j ≡ true
            → get key c.policy.evict.key_costs ≡ none
            → is_some (get j c.policy.evict.key_costs) ≡ false
        was_out j q absent =
            subst (λ i. is_some (get i c.policy.evict.key_costs) ≡ false) ((nat_beq_iff key j).0 q)
              (ap is_some absent)

  pub del-IsExact :
      (key conflict : ℕ) (m : ℕ → Option (Node V)) (p : DefaultPolicy) (s s' : Store V)
      → conflict ≡ 0
      → IsExact m p (some s)
      → Changed key (if matches conflict (view s key) then none else view s key) s s'
      → IsExact (replay (del_call key conflict) m) (Policy.del key p) (some s')
  unfolding Policy.del
  del-IsExact key conflict m p s s' plain x ch = record {
    held = λ j.
        view-Changed key _ s s' j ch
        ∙ rw (plain, get-del key j p.evict, any_conflict (view s key), x.held j) (ground arith);
    known = λ j there. ground (arith, get-del key j p.evict, x.known j, there);
  }
