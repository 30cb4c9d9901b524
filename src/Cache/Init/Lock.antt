-- ===== src/Cache/Init/Lock.antt =====
-- Who has the lock that `size_ctl` is, and what each thread may rely on.
use memory_cache_rust.Prelude.{
  ℕ, ◌≡◌, ◌≢◌, ◌↔◌, ◌⊎◌, inl, inr, refl, sym, ◌∙◌, Bool, true, false, [], ◌∷◌, Option, none, some,
  nat_beq, Bool-cases, if◌then◌else◌, nat_beq_iff, arith,
}
use mathlib.Core.Option.{some-injective}
use memory_cache_rust.Prelude.Int.{ℤ, pos, negsuc}
use memory_cache_rust.Cache.Init.{
  Shared, Pc, load_table, load_ctl, exchange, reload, build, release, done, Threads,
}

-- Between the exchange and the store that ends it.
abbrev pub critical : Pc → Bool
critical load_table = false
critical load_ctl = false
critical (exchange n) = false
critical (reload n) = true
critical (build n) = true
critical (release n a) = true
critical (done a) = false

-- What a thread has seen of the pointer is still so.
abbrev pub IsLocal : Option ℕ → Pc → Type 0
IsLocal t load_table = Unit
IsLocal t load_ctl = Unit
IsLocal t (exchange n) = Unit
IsLocal t (reload n) = Unit
IsLocal t (build n) = t ≡ none
IsLocal t (release n a) = t ≡ some a
IsLocal t (done a) = t ≡ some a

-- `size_ctl` is -1 exactly while a thread has it.
abbrev pub IsLocked : Option ℕ → ℤ → Type 0
IsLocked none c = (n : ℕ) × (c ≡ pos n)
IsLocked (some i) c = c ≡ negsuc 0

-- Nothing is built, or one table that the pointer has.
abbrev pub IsBuilt : {T : Type 0} → T → Shared T → Type 0
IsBuilt make m =
    ((m.table ≡ none) × (m.tables ≡ [])) ⊎ ((m.table ≡ some 0) × (m.tables ≡ make ∷ []))

pub record IsSound {T : Type 0} (make : T) (owner : Option ℕ) (s : Threads T) : Type 0 where
  pub lock : IsLocked owner s.shared.size_ctl
  pub built : IsBuilt make s.shared
  pub holder : (j : ℕ) → (critical (s.pc j) ≡ true) ↔ (owner ≡ some j)
  pub local : (j : ℕ) → IsLocal s.shared.table (s.pc j)

free-owner : (owner : Option ℕ) {c : ℤ} {n : ℕ} → IsLocked owner c → c ≡ pos n → owner ≡ none
free-owner none h e = refl
free-owner (some i) h e = ground arith

-- Outside the lock, no thread relies on the pointer being null.
built-IsLocal : (q : Pc) → critical q ≢ true → IsLocal none q → IsLocal (some 0) q
built-IsLocal load_table c h = tt
built-IsLocal load_ctl c h = tt
built-IsLocal (exchange n) c h = tt
built-IsLocal (reload n) c h = tt
built-IsLocal (build n) c h = absurd (c refl)
built-IsLocal (release n a) c h = absurd (c refl)
built-IsLocal (done a) c h = ground arith

module _ {T : Type 0} (make : T) where
  -- One thread moves to `p`, and leaves the shared variables at `m`.
  unfoldable pub moved : ℕ → Shared T → Pc → Threads T → Threads T
  moved i m p s = record { shared = m; pc = λ j. if nat_beq i j then p else s.pc j }

  moved-IsSound :
      {owner : Option ℕ} {s : Threads T} (i : ℕ) (m : Shared T) (p : Pc) (owner' : Option ℕ)
      → IsSound make owner s
      → IsLocked owner' m.size_ctl
      → IsBuilt make m
      → (critical p ≡ true) ↔ (owner' ≡ some i)
      → IsLocal m.table p
      → ((j : ℕ) → i ≢ j → (owner ≡ some j) ↔ (owner' ≡ some j))
      → ((j : ℕ) → i ≢ j → IsLocal m.table (s.pc j))
      → IsSound make owner' (moved i m p s)
  unfolding moved
  moved-IsSound {s} i m p owner' inv lock built own mine others theirs = record {
    lock = lock;
    built = built;
    holder = λ j. elim (Bool-cases (nat_beq i j)) [
      | inl e ↦ rw e (rw (sym ((nat_beq_iff i j).0 e)) own)
      | inr e ↦
          let ne : i ≢ j = λ q. ground arith in
          rw e
            (λ c. (others j ne).0 ((inv.holder j).0 c), λ q. (inv.holder j).1 ((others j ne).1 q))
    ];
    local = λ j. elim (Bool-cases (nat_beq i j)) [
      | inl e ↦ rw e mine
      | inr e ↦ rw e (theirs j (λ q. ground arith))
    ];
  }

  module _ {owner : Option ℕ} {s : Threads T} (i : ℕ) (p : Pc) (inv : IsSound make owner s) where
    -- A move that changes no shared variable.
    pub stay-IsSound :
        (critical p ≡ true) ↔ (critical (s.pc i) ≡ true)
        → IsLocal s.shared.table p
        → IsSound make owner (moved i s.shared p s)
    stay-IsSound same mine =
        moved-IsSound i s.shared p owner inv inv.lock inv.built
          (λ c. (inv.holder i).0 (same.0 c), λ q. same.1 ((inv.holder i).1 q)) mine
          (λ j ne. (λ q. q, λ q. q)) (λ j ne. inv.local j)

    -- The exchange succeeds.
    pub take-IsSound :
        {n : ℕ}
        → s.shared.size_ctl ≡ pos n
        → critical p ≡ true
        → IsLocal s.shared.table p
        → IsSound make (some i) (moved i (record s.shared { size_ctl = negsuc 0 }) p s)
    take-IsSound free crit mine =
        moved-IsSound i _ p (some i) inv refl inv.built (λ _. refl, λ _. crit) mine
          (λ j ne.
            rw (free-owner owner inv.lock free)
              (λ q. ground arith, λ q. absurd (ne (some-injective _ _ q))))
          (λ j ne. inv.local j)

    -- The lock is given back.
    pub give-IsSound :
        (n : ℕ)
        → owner ≡ some i
        → critical p ≡ false
        → IsLocal s.shared.table p
        → IsSound make none (moved i (record s.shared { size_ctl = pos n }) p s)
    give-IsSound n own crit mine =
        moved-IsSound i _ p none inv (n, refl) inv.built (λ c. ground arith, λ q. ground arith) mine
          (λ j ne. rw own (λ q. absurd (ne (some-injective _ _ q)), λ q. ground arith))
          (λ j ne. inv.local j)

    -- The table is built.
    pub build-IsSound :
        owner ≡ some i
        → critical p ≡ true
        → s.shared.table ≡ none
        → IsLocal (some 0) p
        → IsSound make owner (moved i (record s.shared { table = some 0; tables = make ∷ [] }) p s)
    build-IsSound own crit null mine =
        moved-IsSound i _ p owner inv inv.lock (inr (refl, refl)) (λ _. own, λ _. crit) mine
          (λ j ne. (λ q. q, λ q. q))
          (λ j ne.
            built-IsLocal (s.pc j) (λ c. ne (some-injective _ _ (sym own ∙ (inv.holder j).0 c)))
              (rw (sym null) (inv.local j)))
