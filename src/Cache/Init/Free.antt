-- ===== src/Cache/Init/Free.antt =====
-- No schedule leaves the threads in a deadlock: some further turns build the table and let a thread end.
use memory_cache_rust.Prelude.{
  ◌≢◌, Option-cases, ℕ, ◌≤◌, ◌≡◌, inl, inr, refl, sym, ◌∙◌, ap, Bool, true, false, List, [], ◌∷◌,
  ◌++◌, Option, none, some, nat_beq, Bool-cases, nat_beq_iff, arith, length,
}
use mathlib.Core.Path.{subst}
use memory_cache_rust.Prelude.Int.{pos, negsuc, int_beq, int_beq_iff}
use memory_cache_rust.Cache.Init.{
  Shared, Pc, load_table, load_ctl, exchange, reload, build, release, done, Threads, usable,
  advance, turn, run, unbuilt,
}
use memory_cache_rust.Cache.Init.Lock.{IsLocal, IsSound, IsLocked, critical}
use memory_cache_rust.Cache.Init.Safe.{unbuilt-IsSound}
use memory_cache_rust.Cache.Init.Wait.{turns, run-append, run-finish}

module _ {T : Type 0} (make : T) (is_empty : T → Bool) (fallback : ℕ)
    (full : is_empty make ≡ false) where
  -- Some turns set the pointer.
  CanBuild : Threads T → Type 0
  CanBuild s = (js : List ℕ) × ((run make is_empty fallback js s).shared.table ≡ some 0)

  -- What the next turn of `i` does.
  ahead :
      (s : Threads T) (i : ℕ) {p p' : Pc} {m' : Shared T}
      → s.pc i ≡ p
      → advance make is_empty fallback s.shared p ≡ (m', p')
      → ((s' : Threads T) → s'.shared ≡ m' → s'.pc i ≡ p' → CanBuild s')
      → CanBuild s
  unfolding CanBuild run turn
  ahead s i {p} at e next =
      let e' = ap (advance make is_empty fallback s.shared) at ∙ e in
      let self : nat_beq i i ≡ true = (nat_beq_iff i i).1 refl in
      let (js, found) =
        next (turn make is_empty fallback i s) (ap (λ r. r.0) e') (rw self (ap (λ r. r.1) e')) in
      (i ∷ js, found)

  null_usable : (m : Shared T) → m.table ≡ none → usable make is_empty fallback m ≡ none
  unfolding usable
  null_usable m e = rw e refl

  -- Nothing is built, and thread `i` has the lock.
  from_build :
      (s : Threads T) (i : ℕ) {n : ℕ} → s.shared.tables ≡ [] → s.pc i ≡ build n → CanBuild s
  unfolding CanBuild advance run
  from_build s i heap at =
      ahead s i at refl (λ s' e at'. ([], ap (λ m. m.table) e ∙ ap (λ ts. some (length ts)) heap))

  from_reload :
      (s : Threads T) (i : ℕ) {n : ℕ}
      → s.shared.table ≡ none
      → s.shared.tables ≡ []
      → s.pc i ≡ reload n
      → CanBuild s
  unfolding advance
  from_reload s i {n} null heap at =
      let next : advance make is_empty fallback s.shared (reload n) ≡ (s.shared, build n) =
        rw (null_usable s.shared null, advance) refl in
      ahead s i at next (λ s' e at'. from_build s' i (ap (λ m. m.tables) e ∙ heap) at')

  -- Nothing is built, the lock is free, and thread `i` is at the exchange.
  from_exchange :
      (s : Threads T) (i n : ℕ)
      → s.shared.table ≡ none
      → s.shared.tables ≡ []
      → s.shared.size_ctl ≡ pos n
      → s.pc i ≡ exchange n
      → CanBuild s
  unfolding advance
  from_exchange s i n null heap free at =
      let next : advance make is_empty fallback s.shared (exchange n)
          ≡ (record s.shared { size_ctl = negsuc 0 }, reload n) =
        rw (free, (int_beq_iff (pos n) (pos n)).1 refl) refl in
      ahead s i at next (λ s' e at'.
        from_reload s' i (ap (λ m. m.table) e ∙ null) (ap (λ m. m.tables) e ∙ heap) at')

  module _ (n : ℕ) where
    -- Nothing is built, and the lock is free.
    IsIdle : Shared T → Type 0
    IsIdle m = (m.table ≡ none) × (m.tables ≡ []) × (m.size_ctl ≡ pos n)

    from_ctl : (s : Threads T) (i : ℕ) → IsIdle s.shared → s.pc i ≡ load_ctl → CanBuild s
    unfolding advance IsIdle
    from_ctl s i idle at =
        let next : advance make is_empty fallback s.shared load_ctl ≡ (s.shared, exchange n) =
          ap
            (λ c. elim c as (λ _. Shared T × Pc) [
              | pos k ↦ (s.shared, exchange k)
              | negsuc k ↦ (s.shared, load_table)
            ])
            idle.2 in
        ahead s i at next (λ s' e at'.
          let (null, heap, free) = subst IsIdle (sym e) idle in
          from_exchange s' i n null heap free at')

    from_start : (s : Threads T) (i : ℕ) → IsIdle s.shared → s.pc i ≡ load_table → CanBuild s
    unfolding advance IsIdle
    from_start s i idle at =
        let next : advance make is_empty fallback s.shared load_table ≡ (s.shared, load_ctl) =
          rw (null_usable s.shared idle.0, advance) refl in
        ahead s i at next (λ s' e at'. from_ctl s' i (subst IsIdle (sym e) idle) at')

    -- The exchange fails where `size_ctl` has changed since it was loaded.
    from_lost : (s : Threads T) (i k : ℕ) → IsIdle s.shared → s.pc i ≡ exchange k → CanBuild s
    unfolding advance IsIdle
    from_lost s i k idle at = elim (Bool-cases (int_beq s.shared.size_ctl (pos k))) [
      | inl e ↦ from_exchange s i k idle.0 idle.1 ((int_beq_iff _ _).0 e) at
      | inr e ↦
          let next : advance make is_empty fallback s.shared (exchange k) ≡ (s.shared, load_table) =
            rw e refl in
          ahead s i at next (λ s' e' at'. from_start s' i (subst IsIdle (sym e') idle) at')
    ]

  -- Someone can build the table: the owner of the lock, and `i` where nobody has it.
  unbuilt-CanBuild : (owner : Option ℕ) (s : Threads T) (i : ℕ) → IsSound make owner s → CanBuild s
  unfolding CanBuild run IsIdle
  unbuilt-CanBuild owner s i inv = elim inv.built [
    | inr (one, heap) ↦ ([], one)
    | inl (null, heap) ↦ elim (Option-cases owner) [
      | inr (j, own) ↦ held j (s.pc j) refl ((inv.holder j).1 own) null heap (inv.local j)
      | inl e ↦
          let (n, free) = subst (λ o. IsLocked o s.shared.size_ctl) e inv.lock in
          open_at n (s.pc i) refl (λ c. ground (arith, (inv.holder i).0 c)) (null, heap, free)
    ]
  ]
    where
      held :
          (j : ℕ) (p : Pc)
          → s.pc j ≡ p
          → critical (s.pc j) ≡ true
          → s.shared.table ≡ none
          → s.shared.tables ≡ []
          → IsLocal s.shared.table (s.pc j)
          → CanBuild s
      held j (reload n) at crit null heap here = from_reload s j null heap at
      held j (build n) at crit null heap here = from_build s j heap at
      held j (release n a) at crit null heap here =
          ground (arith, subst (IsLocal s.shared.table) at here, null)
      held j load_table at crit null heap here = ground (arith, sym crit ∙ ap critical at)
      held j load_ctl at crit null heap here = ground (arith, sym crit ∙ ap critical at)
      held j (exchange n) at crit null heap here = ground (arith, sym crit ∙ ap critical at)
      held j (done a) at crit null heap here = ground (arith, sym crit ∙ ap critical at)

      open_at :
          (n : ℕ) (p : Pc) → s.pc i ≡ p → critical (s.pc i) ≢ true → IsIdle n s.shared → CanBuild s
      open_at n load_table at crit idle = from_start n s i idle at
      open_at n load_ctl at crit idle = from_ctl n s i idle at
      open_at n (exchange k) at crit idle = from_lost n s i k idle at
      open_at n (done a) at crit idle =
          ground (arith, subst (IsLocal s.shared.table) at (inv.local i), idle.0)
      open_at n (reload k) at crit idle = absurd (crit (ap critical at))
      open_at n (build k) at crit idle = absurd (crit (ap critical at))
      open_at n (release k a) at crit idle = absurd (crit (ap critical at))

  turns_four : (i : ℕ) → 4 ≤ turns i (i ∷ i ∷ i ∷ i ∷ [])
  turns_four i = rw ((nat_beq_iff i i).1 refl) (omega arith)

  append_assoc : (xs ys zs : List ℕ) → (xs ++ ys) ++ zs ≡ xs ++ (ys ++ zs)
  append_assoc [] ys zs = refl
  append_assoc (x ∷ xs) ys zs = ap (λ ws. x ∷ ws) (append_assoc xs ys zs)

  -- No schedule leaves the threads that build a table in a deadlock: after each of them, for each
  -- thread there are further turns after which it has ended with the table. This is where a table
  -- that is built is not empty.
  pub run-unblocked :
      (before : List ℕ) (i : ℕ)
      → (after : List ℕ) × ((run make is_empty fallback (before ++ after) unbuilt).pc i ≡ done 0)
  unfolding CanBuild
  run-unblocked before i =
      let (owner, inv) = unbuilt-IsSound make is_empty fallback full before in
      let (js, set) = unbuilt-CanBuild owner _ i inv in
      let alone : List ℕ = i ∷ i ∷ i ∷ i ∷ [] in
      (
        js ++ alone,
        rw (sym (append_assoc before js alone)) (
            run-finish make is_empty fallback full (before ++ js) alone i
              (rw (run-append make is_empty fallback full before js unbuilt) set) (turns_four i)),
      )
