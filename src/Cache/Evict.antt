-- ===== src/Cache/Evict.antt =====
-- The loop of `set_with_ttl` in src/cache.rs that takes the victims of the policy from the store.
use memory_cache_rust.Prelude.{
  ℕ, ◌≡◌, refl, ◌∙◌, Bool, false, ◌||◌, List, [], ◌∷◌, Option, none, some, ok, >>=-ok,
  if◌then◌else◌, nat_beq, arith, Bool-cases, inl, inr,
}
use memory_cache_rust.Cache.{evict_victims}
use memory_cache_rust.Item.{Item, Node}
use memory_cache_rust.Store
use memory_cache_rust.Store.{Store}
use memory_cache_rust.Store.Refine.{Valued, matches, del-Changed}
use memory_cache_rust.Store.Reads.{new-IsValid, view-new}
use memory_cache_rust.Store.View.{IsValid, view, Changed}

module _ {V : Type 0} where
  -- Every node of the store has a value.
  pub record Stocked (s : Store V) : Type 0 where
    pub valid : IsValid s
    pub valued : (key : ℕ) → Valued (view s key)

  pub new-Stocked : Stocked Store.new
  new-Stocked = record { valid = new-IsValid; valued = λ key. rw view-new tt }

  pub view-Changed :
      (key : ℕ) (o : Option (Node V)) (s s' : Store V) (j : ℕ)
      → Changed key o s s'
      → view s' j ≡ (if nat_beq key j then o else view s j)
  view-Changed key o s s' j c = elim (Bool-cases (nat_beq key j)) [
    | inl e ↦ let q : key ≡ j = ground arith in rw (e, ← q) c.here
    | inr e ↦ rw e (c.there j (λ q. absurd (ground arith)))
  ]

  pub Stocked-Changed :
      (key : ℕ) (o : Option (Node V)) (s s' : Store V)
      → Stocked s
      → Valued o
      → Changed key o s s'
      → Stocked s'
  Stocked-Changed key o s s' w d c = record {
    valid = c.valid;
    valued = λ j.
        rw (view-Changed key o s s' j c)
          (elim (Bool-cases (nat_beq key j)) [ inl e ↦ rw e d | inr e ↦ rw e (w.valued j) ]);
  }

  -- The victims have the key `j`.
  abbrev pub listed : ℕ → List (Item V) → Bool
  listed j [] = false
  listed j (v ∷ vs) = nat_beq v.key j || listed j vs

  pub any_conflict : (o : Option (Node V)) → (if matches 0 o then none else o) ≡ none
  any_conflict none = refl
  any_conflict (some v) = ground arith

  evict_one :
      (key : ℕ) (s : Store V)
      → Stocked s
      → (s' : Store V) × (o : Option (ℕ × V)) × (Store.del key 0 s ≡ ok (o, s'))
        × Changed key none s s'
  evict_one key s w =
      let (s', run, c) = del-Changed key 0 s w.valid (w.valued key) in
      (s', _, run, rw (any_conflict (view s key)) at c)

  -- From a store whose nodes have values the loop over the victims returns, whatever the victims:
  -- their keys hold nothing, every other key what it did, and all nodes still have values.
  pub evict_victims_lem :
      (vs : List (Item V)) (s : Store V)
      → Stocked s
      → (s' : Store V) × (evict_victims vs s ≡ ok s')
        × Stocked s'
        × ((j : ℕ) → view s' j ≡ (if listed j vs then none else view s j))
  unfolding evict_victims
  evict_victims_lem [] s w = (s, refl, w, λ j. refl)
  evict_victims_lem (v ∷ vs) s w =
      let (s1, o, run, c) = evict_one v.key s w in
      let (s', rest, w', same) = evict_victims_lem vs s1 (Stocked-Changed v.key none s s1 w tt c) in
      (
        s',
        >>=-ok run _ ∙ rest,
        w',
        λ j. same j ∙ rw (view-Changed v.key none s s1 j c) (ground arith),
      )
