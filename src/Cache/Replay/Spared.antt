-- ===== src/Cache/Replay/Spared.antt =====
-- The keys that an addition to the policy of src/policy.rs leaves with a cost; the new key is no victim.
use memory_cache_rust.Prelude.{
  ℕ, zero, suc, ◌≤◌, sym, ◌≡◌, inl, inr, refl, ap, ◌∙◌, Bool, true, false, List, [], ◌∷◌, ◌++◌,
  Option, none, some, ok, nat_beq_iff, >>=-eq-ok, subst_ok, is_some, nat_eq, nat_beq, Bool-cases,
  Option-cases, arith, if◌then◌else◌, ◌&&◌, ltb, All,
}
use memory_cache_rust.Prelude.Int.{ℤ, pos, ltb_ℤ}
use memory_cache_rust.Prelude.HashMap.{HashMap, get, get-remove, insert, get-insert}
use memory_cache_rust.Cache.Evict.{listed}
use memory_cache_rust.Cache.Coherent.Costs.{listed-append}
use mathlib.Core.Path.{subst}
use memory_cache_rust.Cache.Coherent.Priced.{reported_new}
use memory_cache_rust.Policy.Ends.{Ends, add-Ends}
use memory_cache_rust.Policy.Loop.{add-admit_new}
use memory_cache_rust.Cache.Replay.Chosen.{estimate-le, chosen-All, drop_least-kept}
use memory_cache_rust.Metrics
use memory_cache_rust.Policy
use memory_cache_rust.SampledLfu.{note, note_change}
use memory_cache_rust.SampledLfu.Updates.{note-IsKept, note_change-IsKept}
use memory_cache_rust.Item.{Item}
use memory_cache_rust.Policy.{
  DefaultPolicy, Least, no_least, scan, drop_least, reject, victim, evict_loop, admit_new, add,
}
use memory_cache_rust.Policy.Samples.{IsOrder}
use memory_cache_rust.Policy.Scan.{dropped, fill_sample-All}
use memory_cache_rust.SampledLfu
use memory_cache_rust.SampledLfu.{SampledLfu, PolicyPair, fill_sample, update_if_has, room_left}
use memory_cache_rust.TinyLfu
use memory_cache_rust.TinyLfu.{TinyLfu}

pub is_none : {A : Type 0} (o : Option A) → is_some o ≡ false → o ≡ none
is_none none e = refl
is_none (some a) e = ground arith

abbrev IsOther : ℕ → PolicyPair → Type 0
IsOther key e = nat_beq e.0 key ≡ false

others : (key : ℕ) (m : HashMap ℕ ℤ) → get key m ≡ none → All (IsOther key) m
unfolding get
others key [] e = tt
others key ((j, w) ∷ m) e = elim (Bool-cases (nat_beq j key)) [
  | inl q ↦ absurd (ground (arith, (rw q at e)))
  | inr q ↦ (q, others key m (rw q at e))
]

pub get-del :
    (k j : ℕ) (s : SampledLfu)
    → is_some (get j (SampledLfu.del k s).key_costs)
      ≡ (if nat_beq k j then false else is_some (get j s.key_costs))
unfolding SampledLfu.del
get-del k j s = elim (Option-cases (get k s.key_costs)) [
  | inl new ↦
      rw (new, SampledLfu.del)
        (elim (Bool-cases (nat_beq k j)) [
          | inl q ↦ let same : k ≡ j = (nat_beq_iff k j).0 q in rw (q, ← same, new) refl
          | inr q ↦ rw q refl
        ])
  | inr (v, found) ↦ rw (found, SampledLfu.del) (ground (arith, get-remove k j s.key_costs))
]

module _ {V : Type 0} (order : HashMap ℕ ℤ → List PolicyPair) (visit : IsOrder order) (key : ℕ)
    (cost : ℤ) where
  evict_loop-spared :
      (fuel inc_hits : ℕ) (room : ℤ) (sample : List PolicyPair) (vs : List (Item V))
      (p : DefaultPolicy) (r : DefaultPolicy × List (Item V) × Bool)
      → inc_hits ≤ 256
      → get key p.evict.key_costs ≡ none
      → All (IsOther key) sample
      → listed key vs ≡ false
      → evict_loop order fuel key cost inc_hits room sample vs p ≡ ok r
      → listed key r.1 ≡ false
  unfolding evict_loop
  evict_loop-spared zero inc_hits room sample vs p r small absent a h e = absurd (ground arith)
  evict_loop-spared (suc fuel) inc_hits room sample vs p r small absent a h e =
      elim (Bool-cases (ltb_ℤ room (pos 0))) [
        | inr done ↦ subst_ok (λ t. listed key t.1 ≡ false) (rw done at e) h
        | inl lacking ↦
            let filled = fill_sample order p.evict sample in
            let a' : All (IsOther key) filled =
              fill_sample-All (IsOther key) order p.evict sample
                (visit.visits (IsOther key) p.evict.key_costs (others key p.evict.key_costs absent))
                a in
            let (least, scanned, rest) =
              >>=-eq-ok (scan p.admit 0 filled no_least) _ (rw lacking at e) in
            elim (Bool-cases (ltb inc_hits least.min_hits)) [
              | inl rejected ↦
                  let (m, run, same) = >>=-eq-ok (reject p) _ (rw rejected at rest) in
                  subst_ok (λ t. listed key t.1 ≡ false) same h
              | inr chosen ↦
                  let (sample', dropped, again) =
                    >>=-eq-ok (drop_least least.min_id filled) _ (rw chosen at rest) in
                  let other : nat_beq least.min_key key ≡ false =
                    chosen-All (IsOther key) p.admit filled least inc_hits a' small chosen
                      scanned in
                  evict_loop-spared fuel inc_hits _ sample' _ _ r small
                    (gone least.min_key p.evict absent)
                    (drop_least-kept (IsOther key) least.min_id filled sample' a' dropped)
                    (rw (listed-append key vs (victim least ∷ [])) (ground (arith, h, other))) again
            ]
      ]
    where
      gone :
          (k : ℕ) (s : SampledLfu)
          → get key s.key_costs ≡ none
          → get key (SampledLfu.del k s).key_costs ≡ none
      gone k s e = is_none _ (get-del k key s ∙ rw e (ground arith))

  admit_new-spared :
      (fuel : ℕ) (p : DefaultPolicy) (r : DefaultPolicy × List (Item V) × Bool)
      → get key p.evict.key_costs ≡ none
      → admit_new order fuel key cost p ≡ ok r
      → listed key r.1 ≡ false
  unfolding admit_new
  admit_new-spared fuel p r absent e = elim (Bool-cases (ltb_ℤ (room_left cost p.evict) (pos 0))) [
    | inr roomy ↦ subst_ok (λ t. listed key t.1 ≡ false) (rw roomy at e) refl
    | inl lacking ↦
        let (hits, est, loop) = >>=-eq-ok (TinyLfu.estimate key p.admit) _ (rw lacking at e) in
        evict_loop-spared fuel hits _ [] [] p r (estimate-le key p.admit hits est) absent tt refl
          loop
  ]

  -- No addition of a key that the policy does not have evicts the key itself.
  add-spared :
      (fuel : ℕ) (p : DefaultPolicy) (r : DefaultPolicy × List (Item V) × Bool)
      → get key p.evict.key_costs ≡ none
      → add order fuel key cost p ≡ ok r
      → listed key r.1 ≡ false
  add-spared fuel p r absent e = elim (Bool-cases (ltb_ℤ p.evict.max_cost cost)) [
    | inl big ↦
        let e' : ok (p, [], false) ≡ ok r = unfold add in (rw big at e) in
        subst_ok (λ t. listed key t.1 ≡ false) e' refl
    | inr fits ↦
        admit_new-spared fuel p r absent
          (sym (add-admit_new order fuel key cost p absent (ground (arith, fits))) ∙ e)
  ]

  -- What the costs and the victims are in a round of the evictions.
  Left : SampledLfu → SampledLfu → List (Item V) → Type 0
  Left before s vs =
      (j : ℕ)
      → is_some (get j s.key_costs)
        ≡ (if listed j vs then false else is_some (get j before.key_costs))

  evict-Left :
      (before : SampledLfu) (least : Least) (s : SampledLfu) (vs : List (Item V))
      → Left before s vs
      → Left before (SampledLfu.del least.min_key s) (vs ++ victim least ∷ [])
  unfolding Left
  evict-Left before least s vs h j =
      get-del least.min_key j s ∙ rw (h j, listed-append j vs (victim least ∷ [])) (ground arith)

  -- The keys with a cost after an addition of a key that has none: those of the victims have lost theirs, and the new
  -- key has one if the addition reports so.
  pub add-left :
      (fuel : ℕ) (p : DefaultPolicy) (r : DefaultPolicy × List (Item V) × Bool)
      → get key p.evict.key_costs ≡ none
      → add order fuel key cost p ≡ ok r
      → (j : ℕ)
      → is_some (get j r.0.evict.key_costs) ≡ (
          if listed j r.1
          then false
          else if r.2 && nat_beq key j
          then true
          else is_some (get j p.evict.key_costs))
  unfolding Left SampledLfu.add
  add-left fuel p r absent e j =
      let (s, h, same) : Ends (Left p.evict) key cost r =
        add-Ends (Left p.evict) key cost order (evict-Left p.evict) fuel p r (λ i. refl)
          (λ s u i. absurd (reported_new key cost p.evict s absent u)) e in
      elim (Bool-cases r.2) [
        | inr refused ↦
            let state : r.0.evict ≡ s = (rw refused at same) in rw (state, refused) (h j)
        | inl added ↦
            let costs : r.0.evict.key_costs ≡ insert key cost s.key_costs =
              ap (λ t. t.key_costs) (rw added at same) in
            rw (costs, added, get-insert)
              (elim (Bool-cases (nat_beq key j)) [
                | inl q ↦
                    let k : key ≡ j = (nat_beq_iff key j).0 q in
                    let out : listed j r.1 ≡ false =
                      subst (λ i. listed i r.1 ≡ false) k (add-spared fuel p r absent e) in
                    rw (q, out) refl
                | inr q ↦ rw q (h j)
              ])
      ]

update_if_has-keys :
    (key : ℕ) (cost : ℤ) (s : SampledLfu) (r : Bool × SampledLfu)
    → update_if_has key cost s ≡ ok r
    → (j : ℕ) → is_some (get j r.1.key_costs) ≡ is_some (get j s.key_costs)
unfolding update_if_has
update_if_has-keys key cost s r e j = elim (Option-cases (get key s.key_costs)) [
  | inl new ↦
      subst_ok (λ t. is_some (get j t.1.key_costs) ≡ is_some (get j s.key_costs))
        (rw (new, update_if_has) at e) refl
  | inr (v, found) ↦
      let (s1, first, rest) =
        >>=-eq-ok (note Metrics.key_update key 1 s) _ (rw (found, update_if_has) at e) in
      let (s2, second, same) = >>=-eq-ok (note_change key v cost s1) _ rest in
      let costs : s2.key_costs ≡ s.key_costs =
        (note_change-IsKept key v cost s1 s2 second).0
        ∙ (note-IsKept Metrics.key_update key 1 s s1 first).0 in
      subst_ok (λ t. is_some (get j t.1.key_costs) ≡ is_some (get j s.key_costs)) same
        (rw (costs, get-insert)
          (elim (Bool-cases (nat_beq key j)) [
            | inr q ↦ rw q refl
            | inl q ↦
                let k : key ≡ j = (nat_beq_iff key j).0 q in
                let here : get j s.key_costs ≡ some v =
                  subst (λ i. get i s.key_costs ≡ some v) k found in
                rw (q, here) refl
          ]))
]

-- An update changes which keys have a cost for no key.
pub update-keys :
    (key : ℕ) (cost : ℤ) (p p' : DefaultPolicy)
    → Policy.update key cost p ≡ ok p'
    → (j : ℕ) → is_some (get j p'.evict.key_costs) ≡ is_some (get j p.evict.key_costs)
unfolding Policy.update
update-keys key cost p p' e j =
    let (u, asked, same) = >>=-eq-ok (update_if_has key cost p.evict) _ e in
    subst_ok (λ q. is_some (get j q.evict.key_costs) ≡ is_some (get j p.evict.key_costs)) same
      (update_if_has-keys key cost p.evict u asked j)
