-- ===== src/Ttl.antt =====
-- src/ttl.rs: the buckets of expiring keys. `buckets` is an atomic pointer, `none` if null.
pub mod Inert
use memory_cache_rust.Prelude.{
  ℕ, Bool, true, false, not, [], ◌∷◌, Option, none, some, nat_beq, if◌then◌else◌, nat_eq,
}
use memory_cache_rust.Prelude.Int.{ℤ, as_i64, div_trunc, int_eq}
use memory_cache_rust.Prelude.HashMap
use memory_cache_rust.Prelude.HashMap.{HashMap}
use memory_cache_rust.Item.{as_millis}

-- From key to conflict.
abbrev pub Bucket : Type 0
Bucket = HashMap ℕ ℕ

pub record ExpirationMap : Type 0 where
  pub buckets : Option (HashMap ℤ Bucket)

abbrev pub bucket_duration_secs : ℕ
bucket_duration_secs = 5

unfoldable pub new : ExpirationMap
new = record { buckets = none }

unfoldable pub storage_bucket : ℕ → ℤ
storage_bucket t = div_trunc (as_i64 (as_millis t)) bucket_duration_secs

-- `table.get_mut(&num)`: insert an empty bucket where there is none, else change the bucket.
unfoldable pub insert_or : (Bucket → Bucket) → ℤ → HashMap ℤ Bucket → HashMap ℤ Bucket
insert_or f num table = elim (HashMap.get num table) [
  | none ↦ HashMap.insert num [] table
  | some b ↦ HashMap.insert num (f b) table
]

-- A bucket that is not there is left alone.
unfoldable pub modify : (Bucket → Bucket) → ℤ → HashMap ℤ Bucket → HashMap ℤ Bucket
modify f num table = elim (HashMap.get num table) [
  | none ↦ table
  | some b ↦ HashMap.insert num (f b) table
]

abbrev pub is_empty : HashMap ℤ Bucket → Bool
is_empty [] = true
is_empty (b ∷ bs) = false

-- `update`, `del` and `cleanup` return at once if `buckets.is_null() || !buckets.is_empty()`.
unfoldable pub update : ℕ → ℕ → ℕ → ℕ → ExpirationMap → ExpirationMap
unfolding modify insert_or
update key conflict old_expiration_time new_exp_time em = elim em.buckets [
  | none ↦ em
  | some table ↦
      if not (is_empty table)
      then em
      else (let removed = modify (HashMap.remove key) (storage_bucket old_expiration_time) table in
          record {
            buckets =
                some
                  (insert_or (HashMap.insert key conflict) (storage_bucket new_exp_time) removed);
          })
]

unfoldable pub del : ℕ → ℕ → ExpirationMap → ExpirationMap
unfolding modify
del key expiration em = elim em.buckets [
  | none ↦ em
  | some table ↦ if not (is_empty table) then em else (record {
    buckets = some (modify (HashMap.remove key) (storage_bucket expiration) table);
  })
]

-- A table with entries is kept; else an empty one is stored.
unfoldable pub init_buckets : ExpirationMap → HashMap ℤ Bucket
init_buckets em = elim em.buckets [
  | none ↦ []
  | some table ↦ if not (is_empty table) then table else []
]

-- The table that `add` writes to.
unfoldable pub table_of : ExpirationMap → HashMap ℤ Bucket
unfolding init_buckets
table_of em = elim em.buckets [
  | none ↦ init_buckets em
  | some table ↦ if not (is_empty table) then init_buckets em else table
]

unfoldable pub add : ℕ → ℕ → ℕ → ExpirationMap → ExpirationMap
unfolding table_of insert_or
add key conflict expiration em = if nat_beq expiration 0 then em else (record {
  buckets =
      some (insert_or (HashMap.insert key conflict) (storage_bucket expiration) (table_of em));
})

-- The items due in the bucket of `now`.
unfoldable pub cleanup : ℕ → ExpirationMap → HashMap ℕ ℕ
cleanup now em = elim em.buckets [
  | none ↦ []
  | some table ↦
      if not (is_empty table)
      then []
      else (elim (HashMap.get (storage_bucket now) table) [ none ↦ [] | some maps ↦ maps ])
]
