-- ===== src/Cache/Expiry.antt =====
-- The expiration that `set_with_ttl` of src/cache.rs gives an item.
use memory_cache_rust.Prelude.{
  ℕ, ◌+◌, ◌≡◌, inl, inr, refl, ◌∙◌, sym, Bool, true, false, ◌&&◌, not, List, Option, none, some, ok,
  panic, >>=-ok, ltb, leb, if◌then◌else◌, arith, Bool-cases,
}
use memory_cache_rust.Prelude.Int.{ℤ}
use memory_cache_rust.Prelude.HashMap.{HashMap}
use memory_cache_rust.Cache.{Cache, duration_end, expiration_of, set_until, set_with_ttl}
use memory_cache_rust.SampledLfu.{PolicyPair}

-- A time to live above 0 and below a millisecond.
abbrev pub brief : ℕ → Bool
brief ttl = ltb 0 ttl && ltb ttl 1_000_000

-- A brief time to live counts from what the clock answers.
abbrev pub expiry : Option ℕ → ℕ → ℕ
expiry none ttl = ttl
expiry (some now) ttl = if brief ttl then now + ttl else ttl

-- The time to live is not brief, or the clock answers and the sum is a duration.
abbrev pub timely : Option ℕ → ℕ → Bool
timely none ttl = not (brief ttl)
timely (some now) ttl = not (brief ttl && leb duration_end (now + ttl))

expiration_of-timely :
    (clock : Option ℕ) (ttl : ℕ)
    → timely clock ttl ≡ true
    → expiration_of clock ttl ≡ ok (expiry clock ttl)
unfolding expiration_of
expiration_of-timely none ttl h = ground (arith, h)
expiration_of-timely (some now) ttl h = ground (arith, h)

expiration_of-untimely :
    (clock : Option ℕ) (ttl : ℕ) → timely clock ttl ≡ false → expiration_of clock ttl ≡ panic
unfolding expiration_of
expiration_of-untimely none ttl h = ground (arith, h)
expiration_of-untimely (some now) ttl h = ground (arith, h)

module _ {V : Type 0} (order : HashMap ℕ ℤ → List PolicyPair) (fuel : ℕ) (clock : Option ℕ)
    (key conflict : ℕ) (value : V) (cost : ℤ) (ttl : ℕ) (c : Cache V) where
  pub set_with_ttl-timely :
      timely clock ttl ≡ true
      → set_with_ttl order fuel clock key conflict value cost ttl c
        ≡ set_until order fuel key conflict value cost (expiry clock ttl) c
  unfolding set_with_ttl
  set_with_ttl-timely h = >>=-ok (expiration_of-timely clock ttl h) _

  pub set_with_ttl-untimely :
      timely clock ttl ≡ false → set_with_ttl order fuel clock key conflict value cost ttl c ≡ panic
  unfolding set_with_ttl
  set_with_ttl-untimely h = rw (expiration_of-untimely clock ttl h) refl

  -- A `set_with_ttl` that returns has found its expiration.
  pub set_with_ttl-until :
      (r : Bool × Cache V)
      → set_with_ttl order fuel clock key conflict value cost ttl c ≡ ok r
      → set_until order fuel key conflict value cost (expiry clock ttl) c ≡ ok r
  set_with_ttl-until r e = elim (Bool-cases (timely clock ttl)) [
    | inl h ↦ sym (set_with_ttl-timely h) ∙ e
    | inr h ↦ absurd (ground (arith, sym (set_with_ttl-untimely h) ∙ e))
  ]
