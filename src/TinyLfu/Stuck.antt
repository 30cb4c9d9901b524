-- ===== src/TinyLfu/Stuck.antt =====
-- Repeated accesses to one key in `TinyLFU` of src/policy.rs.
use memory_cache_rust.Prelude.{
  ℕ, zero, suc, ◌+◌, ◌^◌, ◌<◌, ◌≡◌, refl, true, false, Run, ok, replicate, arith, ap, sym, ◌∙◌,
}
use memory_cache_rust.Prelude.Int.{pos, ◌+ℤ◌, wrap_i64, wrap_i64-eq}
use memory_cache_rust.Bloom.Member.{member, has-member}
use memory_cache_rust.Bloom.Insert.{add_if_not_has_lem}
use memory_cache_rust.Sketch
use memory_cache_rust.Sketch.Covers.{increment-Covers, estimate-Covers, bump_at}
use memory_cache_rust.TinyLfu.Reach.{IsValid}
use memory_cache_rust.TinyLfu.{TinyLfu, estimate, age, increment, push}

-- `left` more accesses do not reach the reset.
pub record Roomy (i left : ℕ) (t : TinyLfu) : Type 0 where
  pub limit : ℕ
  pub incrs_eq : t.incrs ≡ pos i
  pub reset_eq : t.reset_at ≡ pos limit
  pub within : i + left < limit
  pub word : limit < 2 ^ 63

pos-add-one : (i : ℕ) → pos i +ℤ pos 1 ≡ pos (i + 1)
unfolding ◌+ℤ◌
pos-add-one i = ground arith

next_incrs : (i : ℕ) → i + 1 < 2 ^ 63 → wrap_i64 (pos i +ℤ pos 1) ≡ pos (i + 1)
next_incrs i h = rw pos-add-one (wrap_i64-eq (pos (i + 1)) (omega arith))

pub age-Roomy :
    (i left : ℕ) (t : TinyLfu) → Roomy i (suc left) t → age t ≡ record t { incrs = pos (i + 1) }
unfolding age
age-Roomy i left t r =
    rw (r.incrs_eq, r.reset_eq, next_incrs i (omega (arith, r.within, r.word)))
      (ground (arith, r.within))

-- An access to a key whose door is open changes nothing but the number of accesses.
pub increment_known :
    (b i left key : ℕ) (t : TinyLfu)
    → IsValid b t
    → member t.door key ≡ true
    → Roomy i (suc left) t
    → increment key t ≡ ok (record t { incrs = pos (i + 1) })
unfolding increment
increment_known b i left key t v known r =
    let (door, ran, a, same) = add_if_not_has_lem key t.door v.door in
    rw (ran, known, same known) (rw (age-Roomy i left t r) refl)

pub Roomy-next :
    (i left : ℕ) (t : TinyLfu)
    → Roomy i (suc left) t
    → Roomy (i + 1) left (record t { incrs = pos (i + 1) })
Roomy-next i left t r = record {
  limit = r.limit;
  incrs_eq = refl;
  reset_eq = r.reset_eq;
  within = omega (arith, r.within);
  word = r.word;
}

abbrev after : TinyLfu → ℕ → Run TinyLfu
after t j = ok (record t { incrs = pos j })

-- Until the reset, accesses to a key whose door is open change nothing but their number.
pub push_known :
    (b n i key : ℕ) (t : TinyLfu)
    → IsValid b t
    → member t.door key ≡ true
    → Roomy i n t
    → push (replicate n key) t ≡ ok (record t { incrs = pos (i + n) })
unfolding push
push_known b zero i key t v known r =
    let e : pos (i + 0) ≡ t.incrs = ap pos (omega arith) ∙ sym r.incrs_eq in
    λ j. ok (record t { incrs = sym e j })
push_known b (suc n) i key t v known r =
    let t' : TinyLfu = record t { incrs = pos (i + 1) } in
    let v' : IsValid b t' = record { counts = v.counts; door = v.door; some_locs = v.some_locs } in
    let e : i + 1 + n ≡ i + suc n = omega arith in
    rw (increment_known b i n key t v known r)
      (push_known b n (i + 1) key t' v' known (Roomy-next i n t r) ∙ ap (after t) e)

first_access :
    (i left key : ℕ) (t : TinyLfu)
    → IsValid 0 t
    → member t.door key ≡ false
    → Roomy i (suc left) t
    → (t' : TinyLfu) × (increment key t ≡ ok t')
      × IsValid 1 t'
      × (member t'.door key ≡ true)
      × Roomy (i + 1) left t'
      × (Sketch.estimate key t'.freq ≡ ok 1)
unfolding increment
first_access i left key t v fresh r =
    let (f, c) = v.counts in
    let (door, ran, a, same) = add_if_not_has_lem key t.door v.door in
    let (freq, counted, c') = increment-Covers f 0 key t.freq c in
    let (e, est, lo, hi, small) = estimate-Covers (bump_at f key) 1 key freq c' in
    let one : e ≡ 1 = ground arith in
    let u : TinyLfu = record t { freq = freq; door = door } in
    let ru : Roomy i (suc left) u = record {
      limit = r.limit;
      incrs_eq = r.incrs_eq;
      reset_eq = r.reset_eq;
      within = r.within;
      word = r.word;
    } in
    (
      record u { incrs = pos (i + 1) },
      rw (ran, fresh) (rw counted (rw (age-Roomy i left u ru) refl)),
      record {
        counts = (bump_at f key, c');
        door = a.valid;
        some_locs = rw a.same_locs v.some_locs;
      },
      a.found,
      Roomy-next i left u ru,
      est ∙ ap ok one,
    )

-- However often a key is accessed before the next reset, from a well-formed state where nothing is
-- counted and its door is shut, its estimate is 2.
pub estimate-push_same :
    (i n key : ℕ) (t : TinyLfu)
    → IsValid 0 t
    → member t.door key ≡ false
    → Roomy i (suc n) t
    → (t' : TinyLfu) × (push (replicate (suc n) key) t ≡ ok t') × (estimate key t' ≡ ok 2)
unfolding push estimate
estimate-push_same i n key t v fresh r =
    let (u, first, v', known, r', one) = first_access i n key t v fresh r in
    (
      record u { incrs = pos (i + 1 + n) },
      rw first (push_known 1 n (i + 1) key u v' known r'),
      rw one (rw (has-member key u.door v'.door) (rw known refl)),
    )
