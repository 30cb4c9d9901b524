-- ===== src/Tests/Keys.antt =====
-- The hashes of keys at concrete inputs.
use memory_cache_rust.Prelude.{◌≡◌, [], ok, arith}
use memory_cache_rust.Prelude.{◌-◌, ◌^◌}
use memory_cache_rust.Prelude.Int.{pos, negsuc, as_i64, wrap_i64}
use memory_cache_rust.Hash.{Key, u64_key, i32_key, Hashers, hash, key_to_hash, value_to_int}
use memory_cache_rust.Hash.Laws.{u64_named, value_to_int-hash}

abbrev hashers : Hashers Unit
hashers = record {
  finish = λ k. 11;
  memory = λ k. [];
  text = λ k. [];
  xxh3 = λ bytes. 12;
  seahash = λ bytes. 13;
}

abbrev key : Key Unit
key = i32_key (negsuc 4)

-- A word that is read as a negative integer.
abbrev large : Key Unit
large = u64_key (2 ^ 64 - 5)

value_to_int-hash_example :
    (value_to_int large ≡ ok (wrap_i64 (pos (2 ^ 64 - 5))))
    × (hash hashers large ≡ (2 ^ 64 - 5, 0))
    × (key_to_hash hashers large ≡ hash hashers large)
    × (as_i64 (hash hashers large).0 ≡ wrap_i64 (pos (2 ^ 64 - 5)))
value_to_int-hash_example = value_to_int-hash hashers (u64_named (2 ^ 64 - 5)) (omega arith)
