-- ===== src/Cache/Owner.antt =====
-- `Clone` and `Drop` of a cache in src/cache.rs: the three pointers of a cache, and who frees what they point to.
pub mod Freed
use memory_cache_rust.Prelude.{ℕ, Option, Bool, Run, ok, if◌then◌else◌, ◌>>=◌}
use memory_cache_rust.Reclaim
use memory_cache_rust.Reclaim.{Atomic, Shared, Heap, null}

-- The pointers of a cache.
pub record Handle : Type 0 where
  pub store : Atomic
  pub policy : Atomic
  pub get_buf : Atomic

-- The boxes of the stores, the policies and the ring buffers.
pub record Boxes (S P R : Type 0) : Type 0 where
  pub stores : Heap S
  pub policies : Heap P
  pub rings : Heap R

unfoldable pub clone : Handle → Handle
clone h = record {
  store = Reclaim.clone h.store;
  policy = Reclaim.from (Reclaim.load h.policy);
  get_buf = Reclaim.from (Reclaim.load h.get_buf);
}

-- The body of `drop` for one pointer: what the box holds is cleared and freed with it.
unfoldable pub drop_one : {T : Type 0} → Atomic → Heap T → Run (Atomic × Heap T)
drop_one a heap =
    let (old, a') = Reclaim.swap null a in
    if Reclaim.is_null old then ok (a', heap) else (Reclaim.into_box old heap >>= λ r. ok (a', r.1))

module _ {S P R : Type 0} where
  -- The pointers that `with_hasher` sets: the store is built later.
  unfoldable pub allocate :
      (P → Heap P → Option ℕ × Heap P)
      → (R → Heap R → Option ℕ × Heap R)
      → P
      → R
      → Boxes S P R
      → Handle × Boxes S P R
  allocate link_policy link_ring policy ring b =
      let (p, policies) = Reclaim.boxed link_policy policy b.policies in
      let (r, rings) = Reclaim.boxed link_ring ring b.rings in
      (
        record {
          store = Reclaim.from null;
          policy = Reclaim.store p (Reclaim.from null);
          get_buf = Reclaim.store r (Reclaim.from null);
        },
        record b { policies = policies; rings = rings },
      )

  unfoldable pub drop : Handle → Boxes S P R → Run (Handle × Boxes S P R)
  unfolding drop_one
  drop h b = drop_one h.store b.stores >>= λ s. drop_one h.policy b.policies >>= λ p.
      drop_one h.get_buf b.rings >>= λ r. ok (
        record { store = s.0; policy = p.0; get_buf = r.0 },
        record { stores = s.1; policies = p.1; rings = r.1 },
      )
