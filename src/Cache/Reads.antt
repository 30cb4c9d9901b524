-- ===== src/Cache/Reads.antt =====
-- `get` and `clear` of src/cache.rs.
use memory_cache_rust.Prelude.{
  ℕ, ◌<◌, ◌≡◌, refl, >>=-ok, ◌∙◌, Option, none, some, Run, ok, ◌>>=◌, Option-cases, inl, inr, arith,
}
use memory_cache_rust.Cache.{Cache, note, get}
use memory_cache_rust.Metrics.{hit, miss, IsUnused, add-get-new, do_not_use}
use memory_cache_rust.Ring.{IsZeroed, refilled, push-IsZeroed}
use memory_cache_rust.Store
use memory_cache_rust.Store.{Store}
use memory_cache_rust.Store.Reads.{shown, get-shown}
use memory_cache_rust.Store.View.{IsValid, view}

module _ {V : Type 0} where
  -- What `get` and the insertions rely on: the store, if there is one, has its shards, and the
  -- buffer and the metrics are as the code leaves them.
  pub record IsReady (c : Cache V) : Type 0 where
    pub stored : (s : Store V) → c.store ≡ some s → IsValid s
    pub buffered : IsZeroed c.get_buf
    pub metered : IsUnused c.metrics

  pub note-same :
      (kind key : ℕ) (c : Cache V) → IsUnused c.metrics → kind < do_not_use → note kind key c ≡ ok c
  unfolding note
  note-same kind key c m lt = elim m [
    | inl e ↦ rw e refl
    | inr e ↦ rw e (rw (add-get-new kind key 1 lt).0 refl)
  ]

  -- What the store of the cache, if it has one, shows for a key.
  abbrev pub shown_by : ℕ → ℕ → ℕ → Option (Store V) → Option V
  shown_by elapsed key conflict none = none
  shown_by elapsed key conflict (some s) = shown elapsed conflict (view s key)

  read_store :
      (elapsed key conflict : ℕ) (c : Cache V) (o : Option (Store V))
      → ((s : Store V) → o ≡ some s → IsValid s)
      → IsUnused c.metrics
      → elim o as (λ x. Run (Option V × Cache V)) [
        | none ↦ ok (none, c)
        | some store ↦ Store.get elapsed key conflict store >>= λ result. elim result [
          | none ↦ note hit key c >>= λ c''. ok (none, c'')
          | some v ↦ note miss key c >>= λ c''. ok (some v, c'')
        ]
      ]
        ≡ ok (shown_by elapsed key conflict o, c)
  read_store elapsed key conflict c none w m = refl
  read_store elapsed key conflict c (some s) w m =
      let missed = note-same hit key c m (omega arith) in
      let found = note-same miss key c m (omega arith) in
      >>=-ok (get-shown elapsed key conflict s (w s refl)) _
      ∙ elim (Option-cases (shown elapsed conflict (view s key))) [
        | inl z ↦ rw z (>>=-ok missed _)
        | inr (v, z) ↦ rw z (>>=-ok found _)
      ]

  -- Where the store, if there is one, has its shards, the buffer is null or full of zeros and no
  -- metrics have counted, `get` returns what the store shows for the key, and the cache as it was
  -- but for the buffer, which is full of zeros. The policy learns nothing of the access.
  pub get-shown_by :
      (elapsed key conflict : ℕ) (c : Cache V)
      → IsReady c
      → get elapsed key conflict c
        ≡ ok (shown_by elapsed key conflict c.store, record c { get_buf = refilled c.get_buf })
  unfolding get
  get-shown_by elapsed key conflict c w =
      >>=-ok (push-IsZeroed key c.get_buf c.policy w.buffered) _
      ∙ read_store elapsed key conflict (record c { get_buf = refilled c.get_buf }) c.store w.stored
          w.metered
