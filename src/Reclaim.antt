-- ===== src/Reclaim.antt =====
-- src/reclaim.rs: atomic pointers to boxes. A pointer is an address or null; a heap has at each address the box, or
-- `none` once it is freed. To read or free through a null or a freed pointer is undefined, here `panic`. The
-- guards are of the crate that defers a reclamation, a parameter here.
use memory_cache_rust.Prelude.{
  ℕ, Bool, true, false, List, Option, none, some, Run, ok, panic, if◌then◌else◌, get_or, set,
  nat_beq,
}

-- The pointer that a `Shared` has, and that an `Atomic` holds.
abbrev pub Shared : Type 0
Shared = Option ℕ

pub record Atomic : Type 0 where
  pub held : Shared

pub record CompareExchangeError : Type 0 where
  pub current : Shared
  pub new : Shared

pub data Exchanged : Type 0 where
  exchanged : Shared → Exchanged
  refused : CompareExchangeError → Exchanged

abbrev pub null : Shared
null = none

unfoldable pub is_null : Shared → Bool
is_null none = true
is_null (some a) = false

-- `PartialEq` of `Shared`.
unfoldable pub eq : Shared → Shared → Bool
eq none none = true
eq none (some b) = false
eq (some a) none = false
eq (some a) (some b) = nat_beq a b

-- `Atomic::from`.
unfoldable pub from : Shared → Atomic
from p = record { held = p }

unfoldable pub load : Atomic → Shared
load a = a.held

unfoldable pub store : Shared → Atomic → Atomic
store new a = record { held = new }

unfoldable pub swap : Shared → Atomic → Shared × Atomic
swap new a = (a.held, record { held = new })

unfoldable pub compare_exchange : Shared → Shared → Atomic → Exchanged × Atomic
unfolding eq
compare_exchange current new a =
    if eq a.held current
    then (exchanged a.held, record { held = new })
    else (refused (record { current = a.held; new = new }), a)

unfoldable pub clone : Atomic → Atomic
clone a = record { held = a.held }

-- `Shared::from` of a raw pointer.
unfoldable pub from_ptr : Option ℕ → Shared
from_ptr ptr = ptr

abbrev pub Heap : Type 0 → Type 0
Heap T = List (Option T)

module _ {T : Type 0} where
  -- `link_boxed` of the collector is of the crate that defers the reclamation.
  unfoldable pub boxed : (T → Heap T → Option ℕ × Heap T) → T → Heap T → Shared × Heap T
  unfolding from_ptr
  boxed link_boxed value heap = let (ptr, heap') = link_boxed value heap in (from_ptr ptr, heap')

  unfoldable pub deref : Shared → Heap T → Run T
  deref none heap = panic
  deref (some a) heap = elim (get_or heap a none) [ none ↦ panic | some t ↦ ok t ]

  unfoldable pub as_ref : Shared → Heap T → Run (Option T)
  as_ref none heap = ok none
  as_ref (some a) heap = elim (get_or heap a none) [ none ↦ panic | some t ↦ ok (some t) ]

  -- The box is taken out of the heap, and dropped by the caller.
  unfoldable pub into_box : Shared → Heap T → Run (T × Heap T)
  into_box none heap = panic
  into_box (some a) heap = elim (get_or heap a none) [
    | none ↦ panic
    | some t ↦ ok (t, set heap a none)
  ]

-- `Atomic::into_box`.
unfoldable pub atomic_into_box : {T : Type 0} → Atomic → Heap T → Run (T × Heap T)
unfolding into_box
atomic_into_box a heap = into_box a.held heap

-- `Atomic::null`.
unfoldable pub atomic_null : Atomic
atomic_null = record { held = none }

-- `Shared::as_ptr`, and `Shared::clone`.
unfoldable pub as_ptr : Shared → Option ℕ
as_ptr shared = shared

unfoldable pub shared_clone : Shared → Shared
unfolding from_ptr as_ptr
shared_clone shared = from_ptr (as_ptr shared)

-- The guard's `retire` is of the crate that defers the reclamation, from a guard `G` to the guard after it.
unfoldable pub retire_shared : {G : Type 0} → (Option ℕ → G → G) → Shared → G → G
retire_shared retire shared guard = retire shared guard

pub data GuardRef (G : Type 0) : Type 0 where
  owned : G → GuardRef G
  borrowed : G → GuardRef G

-- `Deref` of `GuardRef`.
unfoldable pub guard_of : {G : Type 0} → GuardRef G → G
guard_of (owned guard) = guard
guard_of (borrowed guard) = guard
