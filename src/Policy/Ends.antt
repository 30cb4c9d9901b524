-- ===== src/Policy/Ends.antt =====
-- What the evictions of `DefaultPolicy::add` in src/policy.rs keep is true of the state and the victims when it ends.
use memory_cache_rust.Prelude.{
  ℕ, zero, suc, ◌≡◌, ◌∙◌, ap, inl, inr, refl, true, false, Bool, List, [], ◌∷◌, ◌++◌, ok, ◌>>=◌,
  >>=-eq-ok, subst_ok, Bool-cases, if◌then◌else◌, ltb, arith,
}
use memory_cache_rust.Prelude.Int.{ℤ, pos, ltb_ℤ}
use memory_cache_rust.Prelude.HashMap.{HashMap}
use memory_cache_rust.Item.{Item}
use memory_cache_rust.Policy.{
  DefaultPolicy, Least, no_least, scan, drop_least, victim, evict_loop, admit_new, add, reject,
}
use memory_cache_rust.SampledLfu
use memory_cache_rust.SampledLfu.{SampledLfu, PolicyPair, fill_sample, update_if_has, room_left}
use memory_cache_rust.TinyLfu

module _ {V : Type 0} (I : SampledLfu → List (Item V) → Type 0) (key : ℕ) (cost : ℤ) where
  -- The state after the evictions, and the new key's cost in it if the addition reports so.
  abbrev pub Ends : DefaultPolicy × List (Item V) × Bool → Type 0
  Ends r = (s : SampledLfu) × I s r.1 × (r.0.evict ≡ (if r.2 then SampledLfu.add key cost s else s))

  module _ (order : HashMap ℕ ℤ → List PolicyPair)
      (kept : (least : Least) (s : SampledLfu) (vs : List (Item V))
        → I s vs
        → I (SampledLfu.del least.min_key s) (vs ++ victim least ∷ [])) where
    reject-Ends :
        (p : DefaultPolicy) (vs : List (Item V)) (r : DefaultPolicy × List (Item V) × Bool)
        → I p.evict vs
        → (reject p >>= λ metrics. ok (record p { metrics = metrics }, vs, false)) ≡ ok r
        → Ends r
    reject-Ends p vs r h e =
        let (m, run, same) = >>=-eq-ok (reject p) _ e in subst_ok Ends same (p.evict, h, refl)

    evict_loop-Ends :
        (fuel inc_hits : ℕ) (room : ℤ) (sample : List PolicyPair) (vs : List (Item V))
        (p : DefaultPolicy) (r : DefaultPolicy × List (Item V) × Bool)
        → I p.evict vs
        → evict_loop order fuel key cost inc_hits room sample vs p ≡ ok r
        → Ends r
    unfolding evict_loop
    evict_loop-Ends zero inc_hits room sample vs p r h e = absurd (ground arith)
    evict_loop-Ends (suc fuel) inc_hits room sample vs p r h e =
        elim (Bool-cases (ltb_ℤ room (pos 0))) [
          | inr done ↦ subst_ok Ends (rw done at e) (p.evict, h, refl)
          | inl lacking ↦
              let filled = fill_sample order p.evict sample in
              let (least, scanned, rest) =
                >>=-eq-ok (scan p.admit 0 filled no_least) _ (rw lacking at e) in
              elim (Bool-cases (ltb inc_hits least.min_hits)) [
                | inl rejected ↦ reject-Ends p vs r h (rw rejected at rest)
                | inr chosen ↦
                    let (sample', dropped, again) =
                      >>=-eq-ok (drop_least least.min_id filled) _ (rw chosen at rest) in
                    evict_loop-Ends fuel inc_hits _ sample' _ _ r (kept least p.evict vs h) again
              ]
        ]

    pub admit_new-Ends :
        (fuel : ℕ) (p : DefaultPolicy) (r : DefaultPolicy × List (Item V) × Bool)
        → I p.evict []
        → admit_new order fuel key cost p ≡ ok r
        → Ends r
    unfolding admit_new
    admit_new-Ends fuel p r h e = elim (Bool-cases (ltb_ℤ (room_left cost p.evict) (pos 0))) [
      | inr roomy ↦ subst_ok Ends (rw roomy at e) (p.evict, h, refl)
      | inl lacking ↦
          let (hits, est, loop) = >>=-eq-ok (TinyLfu.estimate key p.admit) _ (rw lacking at e) in
          evict_loop-Ends fuel hits _ [] [] p r h loop
    ]

    -- An addition that returns ends so, where an update of the key, if it has a cost, keeps what the evictions keep.
    pub add-Ends :
        (fuel : ℕ) (p : DefaultPolicy) (r : DefaultPolicy × List (Item V) × Bool)
        → I p.evict []
        → ((s : SampledLfu) → update_if_has key cost p.evict ≡ ok (true, s) → I s [])
        → add order fuel key cost p ≡ ok r
        → Ends r
    unfolding add
    add-Ends fuel p r h updated e = elim (Bool-cases (ltb_ℤ p.evict.max_cost cost)) [
      | inl big ↦ subst_ok Ends (rw big at e) (p.evict, h, refl)
      | inr fits ↦
          let (u, asked, rest) = >>=-eq-ok (update_if_has key cost p.evict) _ (rw fits at e) in
          elim (Bool-cases u.0) [
            | inl known ↦
                subst_ok Ends (rw known at rest)
                  (u.1, updated u.1 (asked ∙ ap (λ b. ok (b, u.1)) known), refl)
            | inr new ↦ admit_new-Ends fuel p r h (rw new at rest)
          ]
    ]
