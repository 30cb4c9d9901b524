-- ===== src/Cache/Coherent/Costs.antt =====
-- Which keys leave the policy in an addition or an update: those of the victims.
use memory_cache_rust.Prelude.{
  ℕ, ◌≡◌, ◌⊎◌, inl, inr, refl, ap, ◌∙◌, Bool, true, ◌||◌, List, [], ◌∷◌, ◌++◌, none, ok, >>=-eq-ok,
  subst_ok, is_some, nat_eq, nat_beq, nat_beq_iff, Bool-cases, Option-cases, arith,
}
use mathlib.Core.Path.{subst}
use memory_cache_rust.Prelude.Int.{ℤ}
use memory_cache_rust.Prelude.HashMap.{HashMap, insert, get, remove, get-insert, get-remove}
use memory_cache_rust.Cache.Evict.{listed}
use memory_cache_rust.Item.{Item}
use memory_cache_rust.Metrics
use memory_cache_rust.Policy.Ends.{Ends, add-Ends}
use memory_cache_rust.Policy.{DefaultPolicy, Least, victim, add, update}
use memory_cache_rust.SampledLfu
use memory_cache_rust.SampledLfu.{
  SampledLfu, PolicyPair, fill_sample, update_if_has, room_left, note, note_change,
}
use memory_cache_rust.SampledLfu.Updates.{note-IsKept, note_change-IsKept}

-- The key has no cost in the policy.
abbrev pub IsAbsent : ℕ → SampledLfu → Type 0
IsAbsent j s = get j s.key_costs ≡ none

-- An update of a cost takes no key out.
pub update_if_has-kept :
    (key : ℕ) (cost : ℤ) (s : SampledLfu) (r : Bool × SampledLfu)
    → update_if_has key cost s ≡ ok r
    → (j : ℕ) → IsAbsent j r.1
    → IsAbsent j s
unfolding update_if_has
update_if_has-kept key cost s r e j gone = elim (Option-cases (get key s.key_costs)) [
  | inl new ↦
      subst_ok (λ t. IsAbsent j t.1 → IsAbsent j s) (rw (new, update_if_has) at e) (λ h. h) gone
  | inr (v, found) ↦
      let (s1, first, rest) =
        >>=-eq-ok (note Metrics.key_update key 1 s) _ (rw (found, update_if_has) at e) in
      let (s2, second, same) = >>=-eq-ok (note_change key v cost s1) _ rest in
      let costs : s2.key_costs ≡ s.key_costs =
        (note_change-IsKept key v cost s1 s2 second).0
        ∙ (note-IsKept Metrics.key_update key 1 s s1 first).0 in
      subst_ok (λ t. IsAbsent j t.1 → IsAbsent j s) same
        (λ h. ground (arith, rw costs at h, get-insert key j cost s.key_costs)) gone
]

-- A deletion takes out no other key.
pub del-lost :
    (key : ℕ) (s : SampledLfu) (j : ℕ)
    → IsAbsent j (SampledLfu.del key s)
    → (nat_beq key j ≡ true) ⊎ IsAbsent j s
unfolding SampledLfu.del
del-lost key s j gone = elim (Option-cases (get key s.key_costs)) [
  | inl new ↦ inr (rw (new, SampledLfu.del) at gone)
  | inr (v, found) ↦
      let gone' : get j (remove key s.key_costs) ≡ none = (rw (found, SampledLfu.del) at gone) in
      elim (Bool-cases (nat_beq key j)) [
        | inl e ↦ inl e
        | inr e ↦ inr (ground (arith, gone', get-remove key j s.key_costs))
      ]
]

module _ {V : Type 0} where
  pub listed-append :
      (j : ℕ) (vs ws : List (Item V)) → listed j (vs ++ ws) ≡ (listed j vs || listed j ws)
  listed-append j [] ws = refl
  listed-append j (v ∷ vs) ws = ground (arith, listed-append j vs ws)

  -- A key that an addition leaves without a cost is a victim's, or had none before; and the new key has one if the
  -- addition reports so.
  pub record IsTracked (before : SampledLfu) (key : ℕ) (r : DefaultPolicy × List (Item V) × Bool)
      : Type 0 where
    pub lost : (j : ℕ) → IsAbsent j r.0.evict → (listed j r.1 ≡ true) ⊎ IsAbsent j before
    pub present : r.2 ≡ true → is_some (get key r.0.evict.key_costs) ≡ true

  -- What is true of the costs and the victims in a round of the evictions.
  Lost : SampledLfu → SampledLfu → List (Item V) → Type 0
  Lost before s vs = (j : ℕ) → IsAbsent j s → (listed j vs ≡ true) ⊎ IsAbsent j before

  evict-Lost :
      (before : SampledLfu) (least : Least) (s : SampledLfu) (vs : List (Item V))
      → Lost before s vs
      → Lost before (SampledLfu.del least.min_key s) (vs ++ victim least ∷ [])
  unfolding Lost
  evict-Lost before least s vs h j gone =
      rw (listed-append j vs (victim least ∷ [])) (elim (del-lost least.min_key s j gone) [
        | inl e ↦ inl (ground (arith, e))
        | inr old ↦ elim (h j old) [ inl l ↦ inl (ground (arith, l)) | inr b ↦ inr b ]
      ])

  Ends-IsTracked :
      (before : SampledLfu) (key : ℕ) (cost : ℤ) (r : DefaultPolicy × List (Item V) × Bool)
      → Ends (Lost before) key cost r
      → IsTracked before key r
  unfolding Lost SampledLfu.add
  Ends-IsTracked before key cost r (s, h, same) = elim (Bool-cases r.2) [
    | inl added ↦
        let costs : r.0.evict.key_costs ≡ insert key cost s.key_costs =
          ap (λ t. t.key_costs) (rw added at same) in
        record {
          lost =
              λ j gone. h j (ground (arith, rw costs at gone, get-insert key j cost s.key_costs));
          present = λ q. rw (costs, get-insert, (nat_beq_iff key key).1 refl) refl;
        }
    | inr refused ↦
        let costs : r.0.evict ≡ s = (rw refused at same) in
        record {
          lost = λ j gone. h j (subst (IsAbsent j) costs gone);
          present = λ q. ground (arith, refused, q);
        }
  ]

  pub add-IsTracked :
      (order : HashMap ℕ ℤ → List PolicyPair) (fuel key : ℕ) (cost : ℤ) (p : DefaultPolicy)
      (r : DefaultPolicy × List (Item V) × Bool)
      → add order fuel key cost p ≡ ok r
      → IsTracked p.evict key r
  unfolding Lost
  add-IsTracked order fuel key cost p r e = Ends-IsTracked p.evict key cost r (
      add-Ends (Lost p.evict) key cost order (evict-Lost p.evict) fuel p r (λ j gone. inr gone)
        (λ s u j gone. inr (update_if_has-kept key cost p.evict (true, s) u j gone)) e)

-- An update takes no key out of the policy.
pub update-kept :
    (key : ℕ) (cost : ℤ) (p p' : DefaultPolicy)
    → update key cost p ≡ ok p'
    → (j : ℕ) → IsAbsent j p'.evict
    → IsAbsent j p.evict
unfolding update
update-kept key cost p p' e j gone =
    let (u, asked, same) = >>=-eq-ok (update_if_has key cost p.evict) _ e in
    subst_ok (λ q. IsAbsent j q.evict → IsAbsent j p.evict) same
      (update_if_has-kept key cost p.evict u asked j) gone
