-- ===== src/Ttl/Inert.antt =====
-- What the guards of src/ttl.rs leave of the expiration map.
use memory_cache_rust.Prelude.{
  ℕ, ◌≡◌, refl, [], ◌∷◌, Option, false, Option-cases, inl, inr, none, some, nat_eq, nat_beq, arith,
  ◌≢◌, if◌then◌else◌, ◌==◌,
}
use memory_cache_rust.Prelude.Int.{ℤ, int_eq}
use memory_cache_rust.Prelude.HashMap
use memory_cache_rust.Prelude.HashMap.{HashMap}
use memory_cache_rust.Ttl.{
  Bucket, ExpirationMap, storage_bucket, insert_or, modify, update, del, table_of, init_buckets,
  add, cleanup,
}

-- The entries of the map.
abbrev pub table : ExpirationMap → HashMap ℤ Bucket
table em = elim em.buckets [ none ↦ [] | some t ↦ t ]

-- Whatever the state, a deletion changes no entry and a cleanup finds nothing due; and an update
-- changes no entry of a map that has any.
pub inert :
    (em : ExpirationMap) (key conflict old now : ℕ)
    → (table (del key old em) ≡ table em)
      × (cleanup now em ≡ [])
      × (table em ≢ [] → table (update key conflict old now em) ≡ table em)
unfolding del cleanup update modify HashMap.get
inert em key conflict old now = by_table em.buckets
  where
    by_table :
        (o : Option (HashMap ℤ Bucket))
        → (table (del key old (record { buckets = o })) ≡ table (record { buckets = o }))
          × (cleanup now (record { buckets = o }) ≡ [])
          × (table (record { buckets = o }) ≢ []
              → table (update key conflict old now (record { buckets = o }))
                ≡ table (record { buckets = o }))
    by_table none = (refl, refl, λ h. refl)
    by_table (some []) = (refl, refl, λ h. absurd (h refl))
    by_table (some (b ∷ bs)) = (refl, refl, λ h. refl)

table_of-eq : (em : ExpirationMap) → table_of em ≡ table em
unfolding table_of init_buckets
table_of-eq em = by_table em.buckets
  where
    by_table :
        (o : Option (HashMap ℤ Bucket))
        → table_of (record { buckets = o }) ≡ table (record { buckets = o })
    by_table none = refl
    by_table (some []) = refl
    by_table (some (b ∷ bs)) = refl

-- The bucket `b` after the first key comes to it, or one more.
abbrev pub grown : ℕ → ℕ → Option Bucket → Bucket
grown key conflict none = []
grown key conflict (some b) = HashMap.insert key conflict b

get-insert_or :
    (key conflict : ℕ) (num j : ℤ) (t : HashMap ℤ Bucket)
    → HashMap.get j (insert_or (HashMap.insert key conflict) num t)
      ≡ (if num == j then some (grown key conflict (HashMap.get num t)) else HashMap.get j t)
unfolding insert_or
get-insert_or key conflict num j t = elim (Option-cases (HashMap.get num t)) [
  | inl e ↦ rw (e, insert_or) (HashMap.get-insert num j [] t)
  | inr (b, e) ↦ rw (e, insert_or) (HashMap.get-insert num j (HashMap.insert key conflict b) t)
]

-- An addition with an expiration that is not zero changes the key's bucket only: one that was
-- there gets the key, and one that was not is there after it, but empty, without the key.
pub get-add :
    (key conflict expiration : ℕ) (em : ExpirationMap) (j : ℤ)
    → expiration ≢ 0
    → HashMap.get j (table (add key conflict expiration em)) ≡ (
        if storage_bucket expiration == j
        then some (grown key conflict (HashMap.get (storage_bucket expiration) (table em)))
        else HashMap.get j (table em))
unfolding add
get-add key conflict expiration em j h =
    let e : nat_beq expiration 0 ≡ false = ground arith in
    rw (e, table_of-eq em) (get-insert_or key conflict (storage_bucket expiration) j (table em))
