-- ===== src/Policy/Kept.antt =====
-- What an addition to `DefaultPolicy` of src/policy.rs leaves as it was: the frequencies and the metrics.
use memory_cache_rust.Prelude.{
  ℕ, zero, suc, ◌≡◌, sym, inl, inr, refl, true, false, Bool, List, [], ok, ◌>>=◌, >>=-eq-ok,
  subst_ok, Bool-cases, Option-cases, ltb, arith, nat_eq,
}
use mathlib.Core.Path.{subst}
use memory_cache_rust.Prelude.Int.{ℤ, pos, ltb_ℤ}
use memory_cache_rust.Prelude.HashMap.{HashMap, get}
use memory_cache_rust.Item.{Item}
use memory_cache_rust.Metrics.{IsUnused}
use memory_cache_rust.Policy.Ends.{Ends, add-Ends}
use memory_cache_rust.Policy.{
  DefaultPolicy, no_least, scan, drop_least, evict_loop, admit_new, add, reject,
}
use memory_cache_rust.SampledLfu
use memory_cache_rust.SampledLfu.{SampledLfu, PolicyPair, fill_sample, update_if_has, room_left}
use memory_cache_rust.TinyLfu

-- The two policies differ at most in their costs.
abbrev pub IsAlike : DefaultPolicy → DefaultPolicy → Type 0
IsAlike p q = (q.admit ≡ p.admit) × (q.metrics ≡ p.metrics)

pub del-unused :
    (k : ℕ) (s : SampledLfu) → IsUnused s.metrics → IsUnused (SampledLfu.del k s).metrics
unfolding SampledLfu.del
del-unused k s h = elim (Option-cases (get k s.key_costs)) [
  | inl new ↦ rw (new, SampledLfu.del) h
  | inr (v, found) ↦ rw (found, SampledLfu.del) h
]

module _ {V : Type 0} (order : HashMap ℕ ℤ → List PolicyPair) (key : ℕ) (cost : ℤ) where
  reject-IsAlike :
      (p : DefaultPolicy) (vs : List (Item V)) (r : DefaultPolicy × List (Item V) × Bool)
      → (reject p >>= λ metrics. ok (record p { metrics = metrics }, vs, false)) ≡ ok r
      → IsAlike p r.0
  unfolding reject
  reject-IsAlike p vs r e = elim (Option-cases p.metrics) [
    | inl null ↦ absurd (ground (arith, (rw null at e)))
    | inr (m, there) ↦ subst_ok (λ t. IsAlike p t.0) (rw there at e) (refl, sym there)
  ]

  evict_loop-IsAlike :
      (fuel inc_hits : ℕ) (room : ℤ) (sample : List PolicyPair) (vs : List (Item V))
      (p : DefaultPolicy) (r : DefaultPolicy × List (Item V) × Bool)
      → evict_loop order fuel key cost inc_hits room sample vs p ≡ ok r
      → IsAlike p r.0
  unfolding evict_loop
  evict_loop-IsAlike zero inc_hits room sample vs p r e = absurd (ground arith)
  evict_loop-IsAlike (suc fuel) inc_hits room sample vs p r e =
      elim (Bool-cases (ltb_ℤ room (pos 0))) [
        | inr done ↦ subst_ok (λ t. IsAlike p t.0) (rw done at e) (refl, refl)
        | inl lacking ↦
            let filled = fill_sample order p.evict sample in
            let (least, scanned, rest) =
              >>=-eq-ok (scan p.admit 0 filled no_least) _ (rw lacking at e) in
            elim (Bool-cases (ltb inc_hits least.min_hits)) [
              | inl rejected ↦ reject-IsAlike p vs r (rw rejected at rest)
              | inr chosen ↦
                  let (sample', dropped, again) =
                    >>=-eq-ok (drop_least least.min_id filled) _ (rw chosen at rest) in
                  evict_loop-IsAlike fuel inc_hits _ sample' _ _ r again
            ]
      ]

  admit_new-IsAlike :
      (fuel : ℕ) (p : DefaultPolicy) (r : DefaultPolicy × List (Item V) × Bool)
      → admit_new order fuel key cost p ≡ ok r
      → IsAlike p r.0
  unfolding admit_new
  admit_new-IsAlike fuel p r e = elim (Bool-cases (ltb_ℤ (room_left cost p.evict) (pos 0))) [
    | inr roomy ↦ subst_ok (λ t. IsAlike p t.0) (rw roomy at e) (refl, refl)
    | inl lacking ↦
        let (hits, est, loop) = >>=-eq-ok (TinyLfu.estimate key p.admit) _ (rw lacking at e) in
        evict_loop-IsAlike fuel hits _ [] [] p r loop
  ]

  pub add-IsAlike :
      (fuel : ℕ) (p : DefaultPolicy) (r : DefaultPolicy × List (Item V) × Bool)
      → add order fuel key cost p ≡ ok r
      → IsAlike p r.0
  unfolding add
  add-IsAlike fuel p r e = elim (Bool-cases (ltb_ℤ p.evict.max_cost cost)) [
    | inl big ↦ subst_ok (λ t. IsAlike p t.0) (rw big at e) (refl, refl)
    | inr fits ↦
        let (u, asked, rest) = >>=-eq-ok (update_if_has key cost p.evict) _ (rw fits at e) in
        elim (Bool-cases u.0) [
          | inl known ↦ subst_ok (λ t. IsAlike p t.0) (rw known at rest) (refl, refl)
          | inr new ↦ admit_new-IsAlike fuel p r (rw new at rest)
        ]
  ]

  -- The pointer of the costs to the metrics.
  pub add-unused :
      (fuel : ℕ) (p : DefaultPolicy) (r : DefaultPolicy × List (Item V) × Bool)
      → IsUnused p.evict.metrics
      → ((s : SampledLfu) → update_if_has key cost p.evict ≡ ok (true, s) → IsUnused s.metrics)
      → add order fuel key cost p ≡ ok r
      → IsUnused r.0.evict.metrics
  unfolding SampledLfu.add
  add-unused fuel p r h updated e =
      let (s, w, same) : Ends (λ s vs. IsUnused s.metrics) key cost r =
        add-Ends (λ s vs. IsUnused s.metrics) key cost order
          (λ least s vs. del-unused least.min_key s) fuel p r h updated e in
      elim (Bool-cases r.2) [
        | inl added ↦
            let state : r.0.evict ≡ SampledLfu.add key cost s = (rw added at same) in
            subst (λ t. IsUnused t.metrics) (sym state) w
        | inr refused ↦
            let state : r.0.evict ≡ s = (rw refused at same) in
            subst (λ t. IsUnused t.metrics) (sym state) w
      ]
