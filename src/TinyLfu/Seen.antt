-- ===== src/TinyLfu/Seen.antt =====
-- Accesses to any keys in `TinyLFU` of src/policy.rs, before the next reset.
use memory_cache_rust.Prelude.{
  All, All-imp, ℕ, suc, ◌+◌, ◌≤◌, ◌≡◌, refl, ◌∙◌, inl, inr, true, List, [], ◌∷◌, ok, >>=-ok, length,
  arith, Bool-cases,
}
use memory_cache_rust.Prelude.Int.{pos}
use memory_cache_rust.Bloom.Member.{member, has-member}
use memory_cache_rust.Bloom.Insert.{add_if_not_has_lem}
use memory_cache_rust.Sketch.Covers.{increment-Covers, estimate-Covers, bump_at}
use memory_cache_rust.TinyLfu.Reach.{IsValid, IsValid-mono}
use memory_cache_rust.TinyLfu.Stuck.{Roomy, age-Roomy, Roomy-next, increment_known}
use memory_cache_rust.TinyLfu.{TinyLfu, estimate, increment, push}

-- The door of a key is open.
abbrev IsSeen : TinyLfu → ℕ → Type 0
IsSeen t key = member t.door key ≡ true

access :
    (b i left key : ℕ) (t : TinyLfu)
    → IsValid b t
    → Roomy i (suc left) t
    → (t' : TinyLfu) × (increment key t ≡ ok t')
      × IsValid (b + 1) t'
      × IsSeen t' key
      × ((h : ℕ) → IsSeen t h → IsSeen t' h)
      × Roomy (i + 1) left t'
unfolding increment
access b i left key t v r = elim (Bool-cases (member t.door key)) [
  | inl known ↦
      let t' : TinyLfu = record t { incrs = pos (i + 1) } in
      let v' : IsValid b t' = record {
        counts = v.counts;
        door = v.door;
        some_locs = v.some_locs;
      } in
      (
        t',
        increment_known b i left key t v known r,
        IsValid-mono b (b + 1) t' (omega arith) v',
        known,
        λ h s. s,
        Roomy-next i left t r,
      )
  | inr fresh ↦
      let (f, c) = v.counts in
      let (door, ran, a, same) = add_if_not_has_lem key t.door v.door in
      let (freq, counted, c') = increment-Covers f b key t.freq c in
      let u : TinyLfu = record t { freq = freq; door = door } in
      let ru : Roomy i (suc left) u = record {
        limit = r.limit;
        incrs_eq = r.incrs_eq;
        reset_eq = r.reset_eq;
        within = r.within;
        word = r.word;
      } in
      (
        record u { incrs = pos (i + 1) },
        rw (ran, fresh) (rw counted (rw (age-Roomy i left u ru) refl)),
        record {
          counts = (bump_at f key, c');
          door = a.valid;
          some_locs = rw a.same_locs v.some_locs;
        },
        a.found,
        a.kept,
        Roomy-next i left u ru,
      )
]

push-IsSeen :
    (b i : ℕ) (keys : List ℕ) (t : TinyLfu)
    → IsValid b t
    → Roomy i (length keys) t
    → (t' : TinyLfu) × (push keys t ≡ ok t')
      × IsValid (b + length keys) t'
      × All (IsSeen t') keys
      × ((h : ℕ) → IsSeen t h → IsSeen t' h)
unfolding push
push-IsSeen b i [] t v r = (t, refl, IsValid-mono b (b + 0) t (omega arith) v, tt, λ h s. s)
push-IsSeen b i (key ∷ keys) t v r =
    let (t1, first, v1, seen, kept, r1) = access b i (length keys) key t v r in
    let (t', rest, v', all_seen, kept') = push-IsSeen (b + 1) (i + 1) keys t1 v1 r1 in
    (
      t',
      >>=-ok first _ ∙ rest,
      IsValid-mono (b + 1 + length keys) (b + suc (length keys)) t' (omega arith) v',
      (kept' key seen, all_seen),
      λ h s. kept' h (kept h s),
    )

-- The estimate of a key is from 1 to 16.
abbrev pub IsCounted : TinyLfu → ℕ → Type 0
IsCounted t key = (e : ℕ) × (estimate key t ≡ ok e) × (1 ≤ e) × (e ≤ 16)

seen-IsCounted : (b key : ℕ) (t : TinyLfu) → IsValid b t → IsSeen t key → IsCounted t key
unfolding estimate
seen-IsCounted b key t v seen =
    let (f, c) = v.counts in
    let (hits, run, lo, hi, small) = estimate-Covers f b key t.freq c in
    (hits + 1, rw (run, has-member key t.door v.door, seen) refl, omega arith, omega (arith, small))

-- From a well-formed state a push of any keys that does not reach the next reset returns a well-
-- formed state, whose counters are bounded by as many more as there are keys, in which every one
-- of the keys has an estimate from 1 to 16.
pub push-IsCounted :
    (b i : ℕ) (keys : List ℕ) (t : TinyLfu)
    → IsValid b t
    → Roomy i (length keys) t
    → (t' : TinyLfu) × (push keys t ≡ ok t')
      × IsValid (b + length keys) t'
      × All (IsCounted t') keys
push-IsCounted b i keys t v r =
    let (t', run, v', seen, kept) = push-IsSeen b i keys t v r in
    (
      t',
      run,
      v',
      All-imp (IsSeen t') (IsCounted t') keys
          (λ key s. seen-IsCounted (b + length keys) key t' v' s) seen,
    )
