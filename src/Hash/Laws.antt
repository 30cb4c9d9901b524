-- ===== src/Hash/Laws.antt =====
-- The hashes of integer keys.
use memory_cache_rust.Prelude.{ℕ, ◌^◌, ◌<◌, ◌≤◌, ◌≡◌, refl, ap, sym, ◌∙◌, ok, arith}
use memory_cache_rust.Prelude.Int.{
  ℤ, pos, as_u64, as_i64, wrap_i64, wrap_i64-eq, pos_part, neg_part,
}
use memory_cache_rust.Hash.{
  Key, i64_key, i32_key, i16_key, i8_key, u64_key, u32_key, u16_key, u8_key, usize_key, other_key,
  Hashers, hash, key_to_hash, value_to_int,
}

-- A signed value of `w + 1` bits.
abbrev pub IsSigned : ℕ → ℤ → Type 0
IsSigned w z = (pos_part z < 2 ^ w) × (neg_part z ≤ 2 ^ w)

as_i64-as_u64 : (z : ℤ) → IsSigned 63 z → as_i64 (as_u64 z) ≡ z
unfolding as_i64
as_i64-as_u64 z h = ground arith

signed_laws :
    (v : ℤ)
    → IsSigned 63 v
    → (ok v ≡ ok (wrap_i64 v))
      × (◌≡◌ {A = ℕ × ℕ} (as_u64 v, 0) (as_u64 v, 0))
      × (◌≡◌ {A = ℕ × ℕ} (as_u64 v, 0) (as_u64 v, 0))
      × (as_i64 (as_u64 v) ≡ wrap_i64 v)
signed_laws v p =
    let same = sym (wrap_i64-eq v p) in (ap ok same, refl, refl, as_i64-as_u64 v p ∙ same)

as_u64-injective : (v w : ℤ) → IsSigned 63 v → IsSigned 63 w → as_u64 v ≡ as_u64 w → v ≡ w
as_u64-injective v w p q e = sym (as_i64-as_u64 v p) ∙ (ap as_i64 e ∙ as_i64-as_u64 w q)

narrow :
    (v w : ℤ)
    → (pos_part v < 2 ^ 32) × (neg_part v < 2 ^ 32)
    → (pos_part w < 2 ^ 32) × (neg_part w < 2 ^ 32)
    → ◌≡◌ {A = ℕ × ℕ} (as_u64 v, 0) (as_u64 w, 0)
    → v ≡ w
narrow v w p q e =
    as_u64-injective v w (omega arith, omega arith) (omega arith, omega arith) (ap (λ h. h.0) e)

module _ {O : Type 0} where
  -- The value is one of its type.
  abbrev pub IsTyped : Key O → Type 0
  IsTyped (i64_key v) = IsSigned 63 v
  IsTyped (i32_key v) = IsSigned 31 v
  IsTyped (i16_key v) = IsSigned 15 v
  IsTyped (i8_key v) = IsSigned 7 v
  IsTyped (u64_key v) = v < 2 ^ 64
  IsTyped (usize_key v) = v < 2 ^ 64
  IsTyped (u32_key v) = v < 2 ^ 32
  IsTyped (u16_key v) = v < 2 ^ 16
  IsTyped (u8_key v) = v < 2 ^ 8
  IsTyped (other_key o) = Unit

  -- Two keys of one of the integer types that `hash` names.
  pub data Alike : Key O → Key O → Type 0 where
    i64_alike : (v w : ℤ) → Alike (i64_key v) (i64_key w)
    i32_alike : (v w : ℤ) → Alike (i32_key v) (i32_key w)
    i16_alike : (v w : ℤ) → Alike (i16_key v) (i16_key w)
    i8_alike : (v w : ℤ) → Alike (i8_key v) (i8_key w)
    u64_alike : (v w : ℕ) → Alike (u64_key v) (u64_key w)
    u32_alike : (v w : ℕ) → Alike (u32_key v) (u32_key w)
    u8_alike : (v w : ℕ) → Alike (u8_key v) (u8_key w)
    usize_alike : (v w : ℕ) → Alike (usize_key v) (usize_key w)

  -- A key of an integer type that all three functions name.
  pub data Named : Key O → Type 0 where
    i64_named : (v : ℤ) → Named (i64_key v)
    i32_named : (v : ℤ) → Named (i32_key v)
    i16_named : (v : ℤ) → Named (i16_key v)
    u64_named : (v : ℕ) → Named (u64_key v)
    u32_named : (v : ℕ) → Named (u32_key v)
    u8_named : (v : ℕ) → Named (u8_key v)
    usize_named : (v : ℕ) → Named (usize_key v)

  -- The number that a key of an integer type is.
  abbrev pub number : Key O → ℤ
  number (i64_key v) = v
  number (i32_key v) = v
  number (i16_key v) = v
  number (i8_key v) = v
  number (u64_key v) = pos v
  number (usize_key v) = pos v
  number (u32_key v) = pos v
  number (u16_key v) = pos v
  number (u8_key v) = pos v
  number (other_key o) = pos 0

  module _ (hs : Hashers O) where
    -- The branch for a zero agrees with the one after it.
    hash_i64 : (v : ℤ) → hash hs (i64_key v) ≡ (as_u64 v, 0)
    unfolding hash
    hash_i64 v = ground arith

    -- Two keys of one integer type that `hash` names have the same hashes only if they are equal.
    pub hash-injective :
        {j k : Key O} → Alike j k → IsTyped j → IsTyped k → hash hs j ≡ hash hs k → j ≡ k
    unfolding hash
    hash-injective (i64_alike v w) p q e =
        ap i64_key (as_u64-injective v w p q (ap (λ h. h.0) (sym (hash_i64 v) ∙ (e ∙ hash_i64 w))))
    hash-injective (i32_alike v w) p q e =
        ap i32_key (narrow v w (omega arith, omega arith) (omega arith, omega arith) e)
    hash-injective (i16_alike v w) p q e =
        ap i16_key (narrow v w (omega arith, omega arith) (omega arith, omega arith) e)
    hash-injective (i8_alike v w) p q e =
        ap i8_key (narrow v w (omega arith, omega arith) (omega arith, omega arith) e)
    hash-injective (u64_alike v w) p q e = ap (λ h. u64_key h.0) e
    hash-injective (u32_alike v w) p q e = ap (λ h. u32_key h.0) e
    hash-injective (u8_alike v w) p q e = ap (λ h. u8_key h.0) e
    hash-injective (usize_alike v w) p q e = ap (λ h. usize_key h.0) e

    -- For a key of an integer type that all three functions name, `hash` and `key_to_hash` give
    -- the 64-bit word of the number that the key is, with no conflict hash; `value_to_int` reads
    -- the number wrapped into 64 bits with a sign, so that a word of 2^63 or more is read as
    -- negative; and this is what the hash is when it is read as signed.
    pub value_to_int-hash :
        {k : Key O}
        → Named k
        → IsTyped k
        → (value_to_int k ≡ ok (wrap_i64 (number k)))
          × (hash hs k ≡ (as_u64 (number k), 0))
          × (key_to_hash hs k ≡ hash hs k)
          × (as_i64 (hash hs k).0 ≡ wrap_i64 (number k))
    unfolding hash key_to_hash value_to_int as_i64 wrap_i64
    value_to_int-hash (i64_named v) p =
        let same = wrap_i64-eq v p in
        (
          ap ok (sym same),
          hash_i64 v,
          sym (hash_i64 v),
          rw (hash_i64 v) (as_i64-as_u64 v p ∙ sym same),
        )
    value_to_int-hash (i32_named v) p = signed_laws v (omega arith, omega arith)
    value_to_int-hash (i16_named v) p = signed_laws v (omega arith, omega arith)
    value_to_int-hash (u64_named v) p = (refl, ground arith, refl, refl)
    value_to_int-hash (usize_named v) p = (refl, ground arith, refl, refl)
    value_to_int-hash (u32_named v) p = (ground arith, ground arith, refl, refl)
    value_to_int-hash (u8_named v) p = (ground arith, ground arith, refl, refl)
