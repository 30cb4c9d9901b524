-- ===== src/Hash.antt =====
-- The hashes of a key: `Cache::hash` of src/cache.rs, `key_to_hash` and `value_to_int` of
-- src/bloom/haskey.rs, `value_to_int` of src/bloom/hasher.rs and `mem_hash` of src/bloom/rutil.rs. The
-- code compares the type's identity with those of the integer types; here a key carries its type.
pub mod Laws
use memory_cache_rust.Prelude.{ℕ, List, Run, ok, panic, if◌then◌else◌}
use memory_cache_rust.Prelude.Int.{ℤ, pos, as_u64, as_i64, int_beq}

-- A value of an integer type, or of a type `O` that the code does not name.
pub data Key (O : Type 0) : Type 0 where
  i64_key i32_key i16_key i8_key : ℤ → Key O
  u64_key u32_key u16_key u8_key usize_key : ℕ → Key O
  other_key : O → Key O

-- The hash functions of other crates, and what the code hands them: `finish` is what the map's hasher makes of a
-- key, `memory` are the bytes of a value in memory, and `text` are those of its display.
pub record Hashers (O : Type 0) : Type 0 where
  pub finish : Key O → ℕ
  pub memory : Key O → List ℕ
  pub text : Key O → List ℕ
  pub xxh3 : List ℕ → ℕ
  pub seahash : List ℕ → ℕ

module _ {O : Type 0} (hs : Hashers O) where
  open hs use {finish, memory, text, xxh3, seahash}

  -- `Cache::hash`.
  unfoldable pub hash : Key O → ℕ × ℕ
  hash (i64_key v) = if int_beq v (pos 0) then (0, 0) else (as_u64 v, 0)
  hash (i32_key v) = (as_u64 v, 0)
  hash (u64_key v) = (v, 0)
  hash (u32_key v) = (v, 0)
  hash (u8_key v) = (v, 0)
  hash (usize_key v) = (v, 0)
  hash (i16_key v) = (as_u64 v, 0)
  hash (i8_key v) = (as_u64 v, 0)
  hash (u16_key v) = (finish (u16_key v), xxh3 (memory (u16_key v)))
  hash (other_key o) = (finish (other_key o), xxh3 (memory (other_key o)))

  unfoldable pub mem_hash : List ℕ → ℕ
  mem_hash bytes = seahash bytes

  unfoldable pub mem_hash_byte : List ℕ → ℕ
  mem_hash_byte bytes = seahash bytes

  -- A key is a copy, so it is no `String`: the first branch is never taken.
  unfoldable pub key_to_hash : Key O → ℕ × ℕ
  unfolding mem_hash
  key_to_hash (u64_key v) = (v, 0)
  key_to_hash (usize_key v) = (v, 0)
  key_to_hash (i64_key v) = (as_u64 v, 0)
  key_to_hash (i32_key v) = (as_u64 v, 0)
  key_to_hash (u8_key v) = (v, 0)
  key_to_hash (u16_key v) = (v, 0)
  key_to_hash (u32_key v) = (v, 0)
  key_to_hash (i16_key v) = (as_u64 v, 0)
  key_to_hash (i8_key v) = (mem_hash (text (i8_key v)), xxh3 (text (i8_key v)))
  key_to_hash (other_key o) = (mem_hash (text (other_key o)), xxh3 (text (other_key o)))

module _ {O : Type 0} where
  -- `value_to_int` of src/bloom/haskey.rs.
  unfoldable pub value_to_int : Key O → Run ℤ
  value_to_int (u64_key v) = ok (as_i64 v)
  value_to_int (usize_key v) = ok (as_i64 v)
  value_to_int (i64_key v) = ok v
  value_to_int (i32_key v) = ok v
  value_to_int (u8_key v) = ok (pos v)
  value_to_int (u16_key v) = ok (pos v)
  value_to_int (u32_key v) = ok (pos v)
  value_to_int (i16_key v) = ok v
  value_to_int (i8_key v) = panic
  value_to_int (other_key o) = panic

  -- `value_to_int` of src/bloom/hasher.rs.
  unfoldable pub word_to_int : Key O → Run ℤ
  word_to_int (u64_key v) = ok (as_i64 v)
  word_to_int (i64_key v) = panic
  word_to_int (i32_key v) = panic
  word_to_int (i16_key v) = panic
  word_to_int (i8_key v) = panic
  word_to_int (u32_key v) = panic
  word_to_int (u16_key v) = panic
  word_to_int (u8_key v) = panic
  word_to_int (usize_key v) = panic
  word_to_int (other_key o) = panic
