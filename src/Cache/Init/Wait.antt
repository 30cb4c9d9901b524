-- ===== src/Cache/Init/Wait.antt =====
-- How long a thread waits for the table.
use memory_cache_rust.Prelude.{
  ℕ, ◌+◌, ◌-◌, ◌≤◌, ◌≡◌, inl, inr, refl, ◌∙◌, Bool, false, List, [], ◌∷◌, ◌++◌, Option, some,
  nat_beq, Bool-cases, if◌then◌else◌, nat_beq_iff, arith,
}
use mathlib.Core.Path.{subst}
use memory_cache_rust.Prelude.Int.{ℤ, pos, negsuc, int_beq}
use memory_cache_rust.Cache.Init.{
  Shared, Pc, load_table, load_ctl, exchange, reload, build, release, done, Threads, usable,
  advance, turn, run, unbuilt,
}
use memory_cache_rust.Cache.Init.Lock.{IsLocal, IsSound}
use memory_cache_rust.Cache.Init.Safe.{usable-eq, turn-IsSound, run-IsSound, unbuilt-IsSound}

-- The turns that `i` has in a schedule.
abbrev pub turns : ℕ → List ℕ → ℕ
turns i [] = 0
turns i (j ∷ js) = (if nat_beq j i then 1 else 0) + turns i js

-- The turns that a thread needs at most, once the pointer is set.
abbrev left : Pc → ℕ
left load_table = 1
left load_ctl = 4
left (exchange n) = 3
left (reload n) = 2
left (build n) = 2
left (release n a) = 1
left (done a) = 0

left-le : (p : Pc) → left p ≤ 4
left-le load_table = omega arith
left-le load_ctl = omega arith
left-le (exchange n) = omega arith
left-le (reload n) = omega arith
left-le (build n) = omega arith
left-le (release n a) = omega arith
left-le (done a) = omega arith

module _ {T : Type 0} (make : T) (is_empty : T → Bool) (fallback : ℕ)
    (full : is_empty make ≡ false) where
  advance-left :
      (m : Shared T) (p : Pc)
      → m.table ≡ some 0
      → usable make is_empty fallback m ≡ some 0
      → IsLocal m.table p
      → ((advance make is_empty fallback m p).0.table ≡ some 0)
        × (left (advance make is_empty fallback m p).1 ≤ left p - 1)
  unfolding advance
  advance-left m load_table e u h = rw (u, advance) (e, omega arith)
  advance-left m load_ctl e u h = ctl m.size_ctl
    where
      ctl :
          (c : ℤ)
          → ((elim c as (λ _. Shared T × Pc) [
            | pos n ↦ (m, exchange n)
            | negsuc n ↦ (m, load_table)
          ]).0.table
              ≡ some 0)
            × (left
                  (elim c as (λ _. Shared T × Pc) [
                    | pos n ↦ (m, exchange n)
                    | negsuc n ↦ (m, load_table)
                  ]).1
                ≤ 3)
      ctl (pos n) = (e, omega arith)
      ctl (negsuc n) = (e, omega arith)
  advance-left m (exchange n) e u h = elim (Bool-cases (int_beq m.size_ctl (pos n))) [
    | inl c ↦ rw c (e, omega arith)
    | inr c ↦ rw c (e, omega arith)
  ]
  advance-left m (reload n) e u h = rw (u, advance) (e, omega arith)
  advance-left m (build n) e u h = ground (arith, e, h)
  advance-left m (release n a) e u h = (e, omega arith)
  advance-left m (done a) e u h = (e, omega arith)

  module _ (owner : Option ℕ) (s : Threads T) (i : ℕ) (inv : IsSound make owner s)
      (set : s.shared.table ≡ some 0) where
    -- The pointer stays, and a turn of `i` takes it a step on.
    turn-left :
        (j : ℕ)
        → ((turn make is_empty fallback j s).shared.table ≡ some 0)
          × (left ((turn make is_empty fallback j s).pc i)
              ≤ left (s.pc i) - (if nat_beq j i then 1 else 0))
    unfolding turn
    turn-left j =
        let (kept, less) =
          advance-left s.shared (s.pc j) set
            (usable-eq make is_empty fallback full s.shared inv.built ∙ set) (inv.local j) in
        (
          kept,
          elim (Bool-cases (nat_beq j i)) [
            | inl e ↦ rw e (
                subst
                  (λ k.
                    left (advance make is_empty fallback s.shared (s.pc j)).1 ≤ left (s.pc k) - 1)
                  ((nat_beq_iff j i).0 e) less)
            | inr e ↦ rw e (omega arith)
          ],
        )

  run-left :
      (is : List ℕ) (owner : Option ℕ) (s : Threads T) (i : ℕ)
      → IsSound make owner s
      → s.shared.table ≡ some 0
      → ((run make is_empty fallback is s).shared.table ≡ some 0)
        × (left ((run make is_empty fallback is s).pc i) ≤ left (s.pc i) - turns i is)
  unfolding run
  run-left [] owner s i inv set = (set, omega arith)
  run-left (j ∷ is) owner s i inv set =
      let (owner', inv') = turn-IsSound make is_empty fallback full owner s j inv in
      let (set', less) = turn-left owner s i inv set j in
      let (kept, rest) = run-left is owner' _ i inv' set' in (kept, omega arith)

  pub run-append :
      (is js : List ℕ) (s : Threads T)
      → run make is_empty fallback (is ++ js) s
        ≡ run make is_empty fallback js (run make is_empty fallback is s)
  unfolding run
  run-append [] js s = refl
  run-append (i ∷ is) js s = run-append is js _

  left-zero : {t : Option ℕ} (p : Pc) → left p ≤ 0 → t ≡ some 0 → IsLocal t p → p ≡ done 0
  left-zero (done a) h e l = ground arith
  left-zero load_table h e l = elim h [ ]
  left-zero load_ctl h e l = elim h [ ]
  left-zero (exchange n) h e l = elim h [ ]
  left-zero (reload n) h e l = elim h [ ]
  left-zero (build n) h e l = elim h [ ]
  left-zero (release n a) h e l = elim h [ ]

  -- In the loop that builds a table, once a schedule has set the pointer, a thread that has four
  -- further turns ends with it, wherever the thread stands and however its turns are mixed with
  -- those of other threads. This is where a table that is built is not empty.
  pub run-finish :
      (before after : List ℕ) (i : ℕ)
      → (run make is_empty fallback before unbuilt).shared.table ≡ some 0
      → 4 ≤ turns i after
      → (run make is_empty fallback (before ++ after) unbuilt).pc i ≡ done 0
  run-finish before after i set many =
      let (owner, inv) = unbuilt-IsSound make is_empty fallback full before in
      let (kept, less) = run-left after owner _ i inv set in
      let (owner', inv') = run-IsSound make is_empty fallback full after owner _ inv in
      rw (run-append before after unbuilt) (
        left-zero _ (omega (arith, left-le ((run make is_empty fallback before unbuilt).pc i))) kept
          (inv'.local i))
