-- ===== src/Cache/Init/Safe.antt =====
-- However the threads are scheduled, one table is built, and every thread that ends has it.
use memory_cache_rust.Prelude.{
  ℕ, ◌≡◌, inl, inr, refl, sym, ◌∙◌, Option-cases, ap, Bool, true, false, List, [], ◌∷◌, Option,
  none, some, Bool-cases, arith,
}
use mathlib.Core.Option.{some-injective}
use mathlib.Core.Path.{subst}
use memory_cache_rust.Prelude.Int.{ℤ, pos, negsuc, int_beq, int_beq_iff}
use memory_cache_rust.Cache.Init.{
  Shared, Pc, load_table, load_ctl, exchange, reload, build, release, done, Threads, usable,
  advance, turn, run, unbuilt,
}
use memory_cache_rust.Cache.Init.Lock.{
  critical, IsLocal, IsBuilt, IsSound, moved, stay-IsSound, take-IsSound, give-IsSound,
  build-IsSound,
}

module _ {T : Type 0} (make : T) (is_empty : T → Bool) (fallback : ℕ)
    (full : is_empty make ≡ false) where
  -- The pointer is usable as soon as it is not null.
  pub usable-eq : (m : Shared T) → IsBuilt make m → usable make is_empty fallback m ≡ m.table
  unfolding usable
  usable-eq m (inl (null, _)) = rw null refl
  usable-eq m (inr (one, heap)) = rw one (rw heap (rw full refl))

  module _ (owner : Option ℕ) (s : Threads T) (i : ℕ) (inv : IsSound make owner s) where
    -- The next owner, once thread `i` has moved from `p`.
    Next : Shared T × Pc → Type 0
    Next r = (owner : Option ℕ) × IsSound make owner (moved make i r.0 r.1 s)

    -- A thread that looks on, or goes on with the lock that it has.
    stays :
        {p : Pc} (q : Pc)
        → s.pc i ≡ p
        → critical q ≡ critical p
        → IsLocal s.shared.table q
        → Next (s.shared, q)
    unfolding Next
    stays q at same mine =
        let e : critical q ≡ critical (s.pc i) = same ∙ sym (ap critical at) in
        (owner, stay-IsSound make i q inv (λ c. sym e ∙ c, λ c. e ∙ c) mine)

    owned : {p : Pc} → s.pc i ≡ p → critical p ≡ true → owner ≡ some i
    owned at crit = (inv.holder i).0 (ap critical at ∙ crit)

    seen : {p : Pc} → s.pc i ≡ p → IsLocal s.shared.table p
    seen at = subst (IsLocal s.shared.table) at (inv.local i)

    build-Next :
        (n : ℕ) → s.pc i ≡ build n → Next (advance make is_empty fallback s.shared (build n))
    unfolding Next advance moved
    build-Next n at = elim inv.built [
      | inl (null, heap) ↦
          rw heap (owner, build-IsSound make i _ inv (owned at refl) refl null refl)
      | inr (one, heap) ↦ ground (arith, seen at)
    ]

    advance-IsSound : (p : Pc) → s.pc i ≡ p → Next (advance make is_empty fallback s.shared p)
    unfolding Next advance moved
    advance-IsSound load_table at =
        rw (usable-eq s.shared inv.built, advance)
          (elim (Option-cases s.shared.table) [
            | inl e ↦ rw e (stays load_ctl at refl tt)
            | inr (a, e) ↦ rw e (stays (done a) at refl e)
          ])
    advance-IsSound load_ctl at = ctl s.shared.size_ctl refl
      where
        ctl :
            (c : ℤ)
            → c ≡ s.shared.size_ctl
            → Next (elim c [ pos n ↦ (s.shared, exchange n) | negsuc n ↦ (s.shared, load_table) ])
        ctl (pos n) e = stays (exchange n) at refl tt
        ctl (negsuc n) e = stays load_table at refl tt
    advance-IsSound (exchange n) at = elim (Bool-cases (int_beq s.shared.size_ctl (pos n))) [
      | inl e ↦ rw e (some i, take-IsSound make i (reload n) inv ((int_beq_iff _ _).0 e) refl tt)
      | inr e ↦ rw e (stays load_table at refl tt)
    ]
    advance-IsSound (reload n) at =
        rw (usable-eq s.shared inv.built, advance)
          (elim (Option-cases s.shared.table) [
            | inl e ↦ rw e (stays (build n) at refl e)
            | inr (a, e) ↦ rw e (stays (release n a) at refl e)
          ])
    advance-IsSound (build n) at = build-Next n at
    advance-IsSound (release n a) at =
        (none, give-IsSound make i (done a) inv n (owned at refl) refl (seen at))
    advance-IsSound (done a) at = stays (done a) at refl (seen at)

  pub turn-IsSound :
      (owner : Option ℕ) (s : Threads T) (i : ℕ)
      → IsSound make owner s
      → (owner' : Option ℕ) × IsSound make owner' (turn make is_empty fallback i s)
  unfolding turn moved Next
  turn-IsSound owner s i inv = advance-IsSound owner s i inv (s.pc i) refl

  pub run-IsSound :
      (is : List ℕ) (owner : Option ℕ) (s : Threads T)
      → IsSound make owner s
      → (owner' : Option ℕ) × IsSound make owner' (run make is_empty fallback is s)
  unfolding run
  run-IsSound [] owner s inv = (owner, inv)
  run-IsSound (i ∷ is) owner s inv =
      let (owner', inv') = turn-IsSound owner s i inv in run-IsSound is owner' _ inv'

  pub unbuilt-IsSound :
      (is : List ℕ)
      → (owner : Option ℕ) × IsSound make owner (run make is_empty fallback is unbuilt)
  unfolding unbuilt
  unbuilt-IsSound is = run-IsSound is none _ (record {
    lock = (0, refl);
    built = inl (refl, refl);
    holder = λ j. (λ c. ground arith, λ q. ground arith);
    local = λ j. tt;
  })

  -- However the threads of a cache are scheduled in the loop that builds a table, at most one of
  -- them is between its exchange of `size_ctl` and the store that ends it. This is where a table
  -- that is built is not empty.
  pub run-exclusive :
      (is : List ℕ) (i j : ℕ)
      → critical ((run make is_empty fallback is unbuilt).pc i) ≡ true
      → critical ((run make is_empty fallback is unbuilt).pc j) ≡ true
      → i ≡ j
  run-exclusive is i j p q =
      let (owner, inv) = unbuilt-IsSound is in
      some-injective _ _ (sym ((inv.holder i).0 p) ∙ (inv.holder j).0 q)

  -- However the threads of a cache are scheduled in the loop that builds a table, two threads that
  -- have ended have the same pointer: it is the one that the cache has, and one table has been
  -- built. This is where a table that is built is not empty.
  pub run-agree :
      (is : List ℕ) (i j : ℕ) {a b : ℕ}
      → (run make is_empty fallback is unbuilt).pc i ≡ done a
      → (run make is_empty fallback is unbuilt).pc j ≡ done b
      → (a ≡ b)
        × ((run make is_empty fallback is unbuilt).shared.table ≡ some a)
        × ((run make is_empty fallback is unbuilt).shared.tables ≡ make ∷ [])
  run-agree is i j {a} {b} p q =
      let (owner, inv) = unbuilt-IsSound is in
      let s : Threads T = run make is_empty fallback is unbuilt in
      let there : s.shared.table ≡ some a = seen owner s i inv p in
      elim inv.built [
        | inl (null, heap) ↦ ground (arith, there, null)
        | inr (one, heap) ↦ (some-injective _ _ (sym there ∙ seen owner s j inv q), there, heap)
      ]
