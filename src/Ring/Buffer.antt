-- ===== src/Ring/Buffer.antt =====
-- `RingBuffer` of src/ring.rs: one stripe, which the cache's `get` pushes to.
use memory_cache_rust.Prelude.{ℕ, Run, ok, ◌>>=◌}
use memory_cache_rust.Policy.{DefaultPolicy}
use memory_cache_rust.Ring
use memory_cache_rust.Ring.{RingStripe}

pub record RingBuffer : Type 0 where
  pub pool : RingStripe

unfoldable pub new : ℕ → RingBuffer
new capa = record { pool = Ring.new capa }

unfoldable pub push : ℕ → RingBuffer → DefaultPolicy → Run (RingBuffer × DefaultPolicy)
push item b p = Ring.push item b.pool p >>= λ sent. ok (record { pool = sent.0 }, sent.1)
