-- ===== src/SampledLfu/Updates.antt =====
-- An update of a key's cost in `SampledLFU` of src/policy.rs by the cost that it has.
use memory_cache_rust.Prelude.{
  ℕ, ◌≡◌, ◌∙◌, inl, inr, refl, ap, Bool, true, [], ◌∷◌, some, ok, >>=-eq-ok, subst_ok, nat_eq,
  nat_beq, nat_beq_iff, Bool-cases, Option-cases, arith,
}
use mathlib.Core.Option.{some-injective}
use memory_cache_rust.Prelude.Int.{
  ℤ, ltb_ℤ, wrap_i64, ◌-ℤ◌, ◌+ℤ◌, eq_of_parts, wrap_i64-add_right, +ℤ_parts, -ℤ_parts,
}
use memory_cache_rust.Prelude.HashMap.{HashMap, get, insert}
use memory_cache_rust.Metrics
use memory_cache_rust.SampledLfu.{SampledLfu, update_if_has, note, note_change}

-- The states differ at most in their metrics.
abbrev pub IsKept : SampledLfu → SampledLfu → Type 0
IsKept s s' = (s'.key_costs ≡ s.key_costs) × (s'.used ≡ s.used) × (s'.max_cost ≡ s.max_cost)

pub note-IsKept :
    (kind key delta : ℕ) (s s' : SampledLfu) → note kind key delta s ≡ ok s' → IsKept s s'
unfolding note
note-IsKept kind key delta s s' e = elim (Option-cases s.metrics) [
  | inl null ↦ subst_ok (IsKept s) (rw null at e) (refl, refl, refl)
  | inr (m, there) ↦
      let (m', run, same) = >>=-eq-ok (Metrics.add kind key delta m) _ (rw there at e) in
      subst_ok (IsKept s) same (refl, refl, refl)
]

pub note_change-IsKept :
    (key : ℕ) (v cost : ℤ) (s s' : SampledLfu) → note_change key v cost s ≡ ok s' → IsKept s s'
unfolding note_change
note_change-IsKept key v cost s s' e = elim (Bool-cases (ltb_ℤ cost v)) [
  | inl less ↦ note-IsKept _ key _ s s' (rw less at e)
  | inr not_less ↦ elim (Bool-cases (ltb_ℤ v cost)) [
    | inl more ↦ note-IsKept _ key _ s s' (rw (not_less, more) at e)
    | inr same ↦ subst_ok (IsKept s) (rw (not_less, same) at e) (refl, refl, refl)
  ]
]

insert-same : (key : ℕ) (v : ℤ) (m : HashMap ℕ ℤ) → get key m ≡ some v → insert key v m ≡ m
unfolding get insert
insert-same key v [] e = ground arith
insert-same key v ((j, w) ∷ m) e = elim (Bool-cases (nat_beq j key)) [
  | inl q ↦
      let k : j ≡ key = (nat_beq_iff j key).0 q in
      let found : w ≡ v = some-injective _ _ (rw q at e) in rw q (rw (k, found) refl)
  | inr q ↦ rw q (ap (λ t. (j, w) ∷ t) (insert-same key v m (rw q at e)))
]

-- From a state where `used` is wrapped, the cost that a key has changes nothing.
pub update_if_has-same :
    (key : ℕ) (cost : ℤ) (s : SampledLfu) (r : Bool × SampledLfu)
    → get key s.key_costs ≡ some cost
    → wrap_i64 s.used ≡ s.used
    → update_if_has key cost s ≡ ok r
    → (r.0 ≡ true) × IsKept s r.1
unfolding update_if_has
update_if_has-same key cost s r found wrapped e =
    let (s1, first, rest) =
      >>=-eq-ok (note Metrics.key_update key 1 s) _ (rw (found, update_if_has) at e) in
    let (s2, second, same) = >>=-eq-ok (note_change key cost cost s1) _ rest in
    let (c1, u1, m1) = note-IsKept Metrics.key_update key 1 s s1 first in
    let (c2, u2, m2) = note_change-IsKept key cost cost s1 s2 second in
    subst_ok (λ t. (t.0 ≡ true) × IsKept s t.1) same
      (
        refl,
        (
          rw (c2, c1) (insert-same key cost s.key_costs found),
          rw (u2, u1) (zero_added s.used cost ∙ wrapped),
          m2 ∙ m1,
        ),
      )
  where
    zero_added : (u v : ℤ) → wrap_i64 (u +ℤ wrap_i64 (v -ℤ v)) ≡ wrap_i64 u
    zero_added u v =
        wrap_i64-add_right u (v -ℤ v)
        ∙ ap wrap_i64
            (eq_of_parts (u +ℤ (v -ℤ v)) u (omega (arith, +ℤ_parts u (v -ℤ v), -ℤ_parts v v)))
