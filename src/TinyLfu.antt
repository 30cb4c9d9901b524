-- ===== src/TinyLfu.antt =====
-- `TinyLFU` of src/policy.rs: the sketch of frequencies behind the doorkeeper.
pub mod Reach
pub mod Stuck
pub mod Seen
use memory_cache_rust.Prelude.{ℕ, ◌+◌, Bool, List, [], ◌∷◌, not, if◌then◌else◌, Run, ok, ◌>>=◌}
use memory_cache_rust.Prelude.Int.{ℤ, pos, ◌+ℤ◌, ltb_ℤ, wrap_i64}
use memory_cache_rust.Bloom
use memory_cache_rust.Bloom.{Bloom, Floats}
use memory_cache_rust.Sketch
use memory_cache_rust.Sketch.{CmSketch}

pub record TinyLfu : Type 0 where
  pub freq : CmSketch
  pub door : Bloom
  pub incrs : ℤ
  pub reset_at : ℤ

unfoldable pub new : Floats → ℕ → ℤ → Run TinyLfu
new fl source num_counter = do
  freq ← Sketch.new source num_counter
  door ← Bloom.new fl (fl.of_i64 num_counter) (fl.lit 1 2)
  ok (record { freq = freq; door = door; incrs = pos 0; reset_at = num_counter })

unfoldable pub estimate : ℕ → TinyLfu → Run ℕ
estimate key t = do
  hits ← Sketch.estimate key t.freq
  open_door ← Bloom.has key t.door
  ok (if open_door then hits + 1 else hits)

-- `clear` and `reset` have the same body.
unfoldable pub clear : TinyLfu → TinyLfu
clear t = record t { incrs = pos 0; door = Bloom.clear t.door; freq = Sketch.clear t.freq }

unfoldable pub reset : TinyLfu → TinyLfu
reset t = record t { incrs = pos 0; door = Bloom.clear t.door; freq = Sketch.clear t.freq }

-- The second half of `increment`: counting the access, and the reset.
unfoldable pub age : TinyLfu → TinyLfu
age t =
    let t' : TinyLfu = record t { incrs = wrap_i64 (t.incrs +ℤ pos 1) } in
    if ltb_ℤ t'.incrs t'.reset_at then t' else reset t'

unfoldable pub increment : ℕ → TinyLfu → Run TinyLfu
unfolding age
increment key t = do
  (added, door) ← Bloom.add_if_not_has key t.door
  freq ← (if added then Sketch.increment key t.freq else ok t.freq)
  ok (age (record t { freq = freq; door = door }))

unfoldable pub push : List ℕ → TinyLfu → Run TinyLfu
push [] t = ok t
push (key ∷ keys) t = do t' ← increment key t; push keys t'
