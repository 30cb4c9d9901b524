-- ===== src/TinyLfu/Reach.antt =====
-- What `TinyLFU` of src/policy.rs counts, in a well-formed state.
use memory_cache_rust.Prelude.{
  ℕ, ◌+◌, ◌≤◌, ◌<◌, ◌≡◌, refl, false, if◌then◌else◌, ok, arith, Bool-cases, inl, inr,
}
use memory_cache_rust.Prelude.Int.{pos, ◌+ℤ◌, ltb_ℤ, wrap_i64}
use memory_cache_rust.Bloom
use memory_cache_rust.Bloom.Member.{IsValid as IsDoor, member, has-member}
use memory_cache_rust.Bloom.Insert.{add_if_not_has_lem, clear-member}
use memory_cache_rust.Sketch
use memory_cache_rust.Sketch.Count.{reset-clear-Covers}
use memory_cache_rust.Sketch.Covers.{
  Covers, Covers-mono, bump_at, increment-Covers, estimate-Covers,
}
use memory_cache_rust.TinyLfu.{TinyLfu, estimate, clear, reset, age, increment}

-- The sketch is well formed with no counter above `b`, and so is the door.
pub record IsValid (b : ℕ) (t : TinyLfu) : Type 0 where
  pub counts : (f : ℕ → ℕ) × Covers f b t.freq
  pub door : IsDoor t.door
  pub some_locs : 0 < t.door.set_locs

-- From a well-formed state `reset` does what `clear` does and leaves no trace of any access: the
-- state is well formed, the door is shut to every key and every estimate is 0.
pub reset-IsValid :
    (b : ℕ) (t : TinyLfu)
    → IsValid b t
    → IsValid 0 (reset t)
      × (reset t ≡ clear t)
      × ((key : ℕ) → (member (reset t).door key ≡ false) × (estimate key (reset t) ≡ ok 0))
unfolding reset clear estimate
reset-IsValid b t v =
    let (f, c) = v.counts in
    let (kept, zeroed) = reset-clear-Covers f b t.freq c in
    let (door, shut, locs) = clear-member t.door v.door in
    (
      record { counts = ((λ h. 0), zeroed); door = door; some_locs = rw locs v.some_locs },
      refl,
      λ key.
          let (e, run, lo, hi, small) =
            estimate-Covers (λ h. 0) 0 key (Sketch.clear t.freq) zeroed in
          let none_left : e ≡ 0 = omega arith in
          (
            shut v.some_locs key,
            rw (run, has-member key (Bloom.clear t.door) door, shut v.some_locs key, none_left)
                refl,
          ),
    )

-- An estimate does not panic. It is at most one more than the largest counter, and a key whose door
-- is shut counts one less than with the door open.
pub estimate-IsValid :
    (b key : ℕ) (t : TinyLfu)
    → IsValid b t
    → (e : ℕ) × (estimate key t ≡ ok e) × (e ≤ b + 1) × (e ≤ 16)
unfolding estimate
estimate-IsValid b key t v =
    let (f, c) = v.counts in
    let (hits, run, lo, hi, small) = estimate-Covers f b key t.freq c in
    (
      (if member t.door key then hits + 1 else hits),
      rw (run, has-member key t.door v.door) refl,
      ground arith,
      ground arith,
    )

pub IsValid-mono : (b c : ℕ) (t : TinyLfu) → b ≤ c → IsValid b t → IsValid c t
IsValid-mono b c t h v = record {
  counts = (v.counts.0, Covers-mono v.counts.0 b c t.freq h v.counts.1);
  door = v.door;
  some_locs = v.some_locs;
}

age-IsValid : (b : ℕ) (t : TinyLfu) → IsValid b t → IsValid b (age t)
unfolding age
age-IsValid b t v =
    let t' : TinyLfu = record t { incrs = wrap_i64 (t.incrs +ℤ pos 1) } in
    let v' : IsValid b t' = record { counts = v.counts; door = v.door; some_locs = v.some_locs } in
    elim (Bool-cases (ltb_ℤ t'.incrs t'.reset_at)) [
      | inl more ↦ rw more v'
      | inr full ↦ rw full (IsValid-mono 0 b (reset t') (omega arith) (reset-IsValid b t' v').0)
    ]

-- From a well-formed state an access does not panic, keeps the state well formed, and raises the
-- bound of the counters by at most one.
pub increment-IsValid :
    (b key : ℕ) (t : TinyLfu)
    → IsValid b t
    → (t' : TinyLfu) × (increment key t ≡ ok t') × IsValid (b + 1) t'
unfolding increment
increment-IsValid b key t v =
    let (f, c) = v.counts in
    let (door, ran, a, same) = add_if_not_has_lem key t.door v.door in
    let (freq, counted, c') = increment-Covers f b key t.freq c in
    let locs : 0 < door.set_locs = rw a.same_locs v.some_locs in
    elim (Bool-cases (member t.door key)) [
      | inl known ↦
          let u : TinyLfu = record t { door = door } in
          let w : IsValid b u = record { counts = v.counts; door = a.valid; some_locs = locs } in
          (
            age u,
            rw ran (rw known refl),
            IsValid-mono b (b + 1) (age u) (omega arith) (age-IsValid b u w),
          )
      | inr fresh ↦
          let u : TinyLfu = record t { freq = freq; door = door } in
          let w : IsValid (b + 1) u = record {
            counts = (bump_at f key, c');
            door = a.valid;
            some_locs = locs;
          } in
          (age u, rw ran (rw (fresh, counted) refl), age-IsValid (b + 1) u w)
    ]
