-- ===== src/Tests/Frequency.antt =====
-- The sketch, the filter and the admission policy at concrete inputs.
use memory_cache_rust.Prelude.{
  ◌⊎◌, ◌-◌, ℕ, ◌^◌, ◌*◌, ◌+◌, ◌≤◌, ◌<◌, ◌≡◌, refl, min, not, false, true, List, [], ◌∷◌, ok, ◌>>=◌,
  replicate, length, All, arith, ◌/◌,
}
use memory_cache_rust.Prelude.Int.{negsuc, pos}
use memory_cache_rust.Bloom.{Bloom, with_size, add_if_not_has}
use memory_cache_rust.Bloom.Insert.{Adds, add_if_not_has_lem, with_size-IsValid}
use memory_cache_rust.Bloom.Member
use memory_cache_rust.Bloom.Member.{member, all_set}
use memory_cache_rust.Sketch
use memory_cache_rust.Sketch.{CmSketch, next_2_power}
use memory_cache_rust.Sketch.Count.{count, increments, estimate-increments, reset-clear-Covers}
use memory_cache_rust.Sketch.Covers.{blank, blank-Covers, Covers}
use memory_cache_rust.Sketch.Power.{next_2_power-le}
use memory_cache_rust.Tests.Data.{door, door_shut, door-IsValid, tiny, tiny-IsValid}
use memory_cache_rust.TinyLfu
use memory_cache_rust.TinyLfu.{TinyLfu}
use memory_cache_rust.TinyLfu.Reach
use memory_cache_rust.TinyLfu.Reach.{reset-IsValid, estimate-IsValid, increment-IsValid}
use memory_cache_rust.TinyLfu.Seen.{push-IsCounted, IsCounted}
use memory_cache_rust.TinyLfu.Stuck.{estimate-push_same}

abbrev keys : List ℕ
keys = 3 ∷ 9 ∷ 3 ∷ []

estimate-increments_example :
    (s' : CmSketch) × ((Sketch.new 5 (pos 8) >>= increments keys) ≡ ok s')
    × ((e : ℕ) × (Sketch.estimate 3 s' ≡ ok e)
        × (min 15 (count 3 keys) ≤ e)
        × (e ≤ min 15 (length keys)))
estimate-increments_example = estimate-increments 5 8 keys 3 (omega arith) (omega arith)

next_2_power-le_example :
    ((9 ≤ 2 ^ 62)
      × ((k : ℕ) × (next_2_power (pos 9) ≡ pos (2 ^ k)) × (9 ≤ 2 ^ k) × (2 ^ k < 2 * 9)))
    ⊎ ((2 ^ 62 < 9) × (next_2_power (pos 9) ≡ negsuc (2 ^ 63 - 1)))
next_2_power-le_example = next_2_power-le 9 (omega arith) (omega arith)

reset-clear-Covers_example :
    Covers (λ h. 0 / 2) (0 / 2) (Sketch.reset (blank 5 8))
    × Covers (λ h. 0) 0 (Sketch.clear (blank 5 8))
reset-clear-Covers_example =
    reset-clear-Covers (λ h. 0) 0 (blank 5 8) (blank-Covers 5 8 (omega arith))

add_if_not_has_lem_example :
    (b' : Bloom) × (add_if_not_has 77 door ≡ ok (not (member door 77), b'))
    × Adds 77 door b'
    × (member door 77 ≡ true → b' ≡ door)
add_if_not_has_lem_example = add_if_not_has_lem 77 door door-IsValid

with_size-IsValid_example :
    (b : Bloom) × (with_size 1000 3 ≡ ok b)
    × Member.IsValid b
    × (1000 ≤ b.size + 1)
    × (b.set_locs ≡ 3)
    × (0 < 3 → (h : ℕ) → member b h ≡ false)
with_size-IsValid_example = with_size-IsValid 1000 3 (omega arith)

reset-IsValid_example :
    Reach.IsValid 0 (TinyLfu.reset tiny)
    × (TinyLfu.reset tiny ≡ TinyLfu.clear tiny)
    × ((key : ℕ)
        → (member (TinyLfu.reset tiny).door key ≡ false)
          × (TinyLfu.estimate key (TinyLfu.reset tiny) ≡ ok 0))
reset-IsValid_example = reset-IsValid 0 tiny tiny-IsValid

increment-IsValid_example : (t' : TinyLfu) × (TinyLfu.increment 9 tiny ≡ ok t') × Reach.IsValid 1 t'
increment-IsValid_example = increment-IsValid 0 9 tiny tiny-IsValid

estimate-push_same_example :
    (t' : TinyLfu) × (TinyLfu.push (replicate 6 9) tiny ≡ ok t') × (TinyLfu.estimate 9 t' ≡ ok 2)
estimate-push_same_example = estimate-push_same 0 5 9 tiny tiny-IsValid (door_shut 9) (record {
  limit = 100;
  incrs_eq = refl;
  reset_eq = refl;
  within = omega arith;
  word = omega arith;
})

push-IsCounted_example :
    (t' : TinyLfu) × (TinyLfu.push keys tiny ≡ ok t') × Reach.IsValid 3 t' × All (IsCounted t') keys
push-IsCounted_example = push-IsCounted 0 0 keys tiny tiny-IsValid (record {
  limit = 100;
  incrs_eq = refl;
  reset_eq = refl;
  within = omega arith;
  word = omega arith;
})
