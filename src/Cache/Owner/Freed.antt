-- ===== src/Cache/Owner/Freed.antt =====
-- What the drop of a cache frees, and the double free of a cache and its clone.
use mathlib.Core.Path.{subst}
use memory_cache_rust.Prelude.{
  nat_beq_iff, ◌⊎◌, zero, suc, ℕ, Option, ◌≡◌, refl, ◌∙◌, none, some, ok, panic, if◌then◌else◌,
  ◌>>=◌, >>=-ok, get_or, set, nat_beq, arith, [], ◌∷◌, inl, inr,
}
use memory_cache_rust.Reclaim
use memory_cache_rust.Reclaim.{Atomic, Shared, Heap, null, from}
use memory_cache_rust.Cache.Owner.{Handle, Boxes, allocate, clone, drop_one, drop}

-- The pointer is null, or has a box.
abbrev pub IsLive : {T : Type 0} → Shared → Heap T → Type 0
IsLive none heap = Unit
IsLive {T} (some a) heap = (t : T) × (get_or heap a none ≡ some t)

-- The pointers of a cache are live.
pub record IsOwned {S P R : Type 0} (h : Handle) (b : Boxes S P R) : Type 0 where
  pub store : IsLive h.store.held b.stores
  pub policy : IsLive h.policy.held b.policies
  pub get_buf : IsLive h.get_buf.held b.rings

-- The heap after the pointer is freed.
abbrev pub IsFreed : {T : Type 0} → Shared → Heap T → Heap T → Type 0
IsFreed p heap heap' =
    (a : ℕ) → get_or heap' a none ≡ (if Reclaim.eq p (some a) then none else get_or heap a none)

get_or-freed :
    {T : Type 0} (heap : Heap T) (a j : ℕ)
    → get_or (set heap a none) j none ≡ (if nat_beq a j then none else get_or heap j none)
get_or-freed [] a j = ground arith
get_or-freed (x ∷ heap) zero zero = ground arith
get_or-freed (x ∷ heap) zero (suc j) = ground arith
get_or-freed (x ∷ heap) (suc a) zero = ground arith
get_or-freed (x ∷ heap) (suc a) (suc j) = grind (arith, get_or-freed heap a j)

drop_one-Freed :
    {T : Type 0} (p : Shared) (heap : Heap T)
    → IsLive p heap
    → (heap' : Heap T) × (drop_one (from p) heap ≡ ok (from null, heap')) × IsFreed p heap heap'
unfolding drop_one from Reclaim.swap Reclaim.is_null Reclaim.into_box Reclaim.eq
drop_one-Freed none heap live = (heap, refl, λ a. refl)
drop_one-Freed (some p) heap (t, at) =
    (set heap p none, rw (at, Reclaim.into_box) refl, get_or-freed heap p)

-- A null pointer is left alone.
drop_one-null : {T : Type 0} (heap : Heap T) → drop_one (from null) heap ≡ ok (from null, heap)
unfolding drop_one from Reclaim.swap Reclaim.is_null
drop_one-null heap = refl

-- A pointer to a freed box is undefined behaviour.
drop_one-twice :
    {T : Type 0} (a : ℕ) (heap : Heap T)
    → get_or heap a none ≡ none
    → drop_one (from (some a)) heap ≡ panic
unfolding drop_one from Reclaim.swap Reclaim.is_null Reclaim.into_box
drop_one-twice a heap e = rw (e, Reclaim.into_box) refl

-- What a second drop of a pointer does.
drop_one-again :
    {T : Type 0} (p : Shared) (heap heap' : Heap T)
    → IsFreed p heap heap'
    → (drop_one (from p) heap' ≡ panic) ⊎ (drop_one (from p) heap' ≡ ok (from null, heap'))
unfolding from Reclaim.eq
drop_one-again none heap heap' freed = inr (drop_one-null heap')
drop_one-again (some a) heap heap' freed =
    inl (drop_one-twice a heap' (freed a ∙ rw ((nat_beq_iff a a).1 refl) refl))

-- Every pointer of a handle is null.
unfoldable pub emptied : Handle
emptied = record { store = from null; policy = from null; get_buf = from null }

module _ {S P R : Type 0} where
  -- The drop of a cache whose pointers are null or live returns and leaves them null: it frees
  -- what they point to and no other box, and a second drop of the emptied cache changes nothing.
  pub drop-Freed :
      (h : Handle) (b : Boxes S P R)
      → IsOwned h b
      → (b' : Boxes S P R) × (drop h b ≡ ok (emptied, b'))
        × IsFreed h.store.held b.stores b'.stores
        × IsFreed h.policy.held b.policies b'.policies
        × IsFreed h.get_buf.held b.rings b'.rings
        × (drop emptied b' ≡ ok (emptied, b'))
  unfolding drop emptied from
  drop-Freed h b live =
      let (stores, s_runs, s_freed) = drop_one-Freed h.store.held b.stores live.store in
      let (policies, p_runs, p_freed) = drop_one-Freed h.policy.held b.policies live.policy in
      let (rings, r_runs, r_freed) = drop_one-Freed h.get_buf.held b.rings live.get_buf in
      (
        record { stores = stores; policies = policies; rings = rings },
        >>=-ok s_runs _ ∙ (>>=-ok p_runs _ ∙ >>=-ok r_runs _),
        s_freed,
        p_freed,
        r_freed,
        >>=-ok (drop_one-null stores) _
            ∙ (>>=-ok (drop_one-null policies) _ ∙ >>=-ok (drop_one-null rings) _),
      )

  -- The drop of a cache whose policy is not null, followed by the drop of a clone of it, reads a
  -- freed pointer.
  pub drop-clone :
      (h : Handle) (b : Boxes S P R) (a : ℕ)
      → IsOwned h b
      → h.policy.held ≡ some a
      → (drop h b >>= λ r. drop (clone h) r.1) ≡ panic
  unfolding drop clone Reclaim.clone from Reclaim.load Reclaim.eq
  drop-clone h b a live at =
      let (b', runs, s_freed, p_freed, r_freed, again) = drop-Freed h b live in
      let policy_panics : drop_one (from h.policy.held) b'.policies ≡ panic = rw at (
        drop_one-twice a b'.policies (
          subst (λ p. IsFreed p b.policies b'.policies) at p_freed a
          ∙ rw ((nat_beq_iff a a).1 refl, Reclaim.eq) refl)) in
      >>=-ok runs _ ∙ elim (drop_one-again h.store.held b.stores b'.stores s_freed) [
        | inl e ↦ rw e refl
        | inr e ↦ >>=-ok e _ ∙ rw policy_panics refl
      ]

-- A value that the collector links is behind the pointer that it returns.
abbrev pub IsLinked : {T : Type 0} → (T → Heap T → Option ℕ × Heap T) → Type 0
IsLinked {T} link_boxed =
    (t : T) (heap : Heap T) → IsLive (link_boxed t heap).0 (link_boxed t heap).1

-- The pointers of a new cache are live.
allocate-IsOwned :
    {S P R : Type 0} (link_policy : P → Heap P → Option ℕ × Heap P)
    (link_ring : R → Heap R → Option ℕ × Heap R) (policy : P) (ring : R) (b : Boxes S P R)
    → IsLinked link_policy
    → IsLinked link_ring
    → IsOwned
        (allocate link_policy link_ring policy ring b).0
        (allocate link_policy link_ring policy ring b).1
unfolding allocate from Reclaim.boxed Reclaim.store Reclaim.from_ptr
allocate-IsOwned link_policy link_ring policy ring b p r = record {
  store = tt;
  policy = p policy b.policies;
  get_buf = r ring b.rings;
}
