-- ===== src/Cache/History/Timed.antt =====
-- The call of `set_with_ttl` in a history on a cache of src/cache.rs, by its expiration.
use memory_cache_rust.Prelude.{
  ℕ, ◌≡◌, ◌∙◌, refl, Bool, true, false, List, Option, ok, panic, >>=-ok, >>=-eq-ok,
}
use memory_cache_rust.Prelude.Int.{ℤ}
use memory_cache_rust.Prelude.HashMap.{HashMap}
use memory_cache_rust.Cache.{Cache, set_until, set_with_ttl}
use memory_cache_rust.Cache.Expiry.{
  expiry, timely, set_with_ttl-until, set_with_ttl-timely, set_with_ttl-untimely,
}
use memory_cache_rust.Cache.History.{set_call, perform}
use memory_cache_rust.SampledLfu.{PolicyPair}

module _ {V : Type 0} (order : HashMap ℕ ℤ → List PolicyPair) (items : HashMap ℕ ℕ → List (ℕ × ℕ))
    (fuel : ℕ) (clock : Option ℕ) (key conflict : ℕ) (value : V) (cost : ℤ) (ttl : ℕ)
    (c : Cache V) where
  pub perform-until :
      (c' : Cache V)
      → perform order items fuel (set_call clock key conflict value cost ttl) c ≡ ok c'
      → (r : Bool × Cache V) × (set_until order fuel key conflict value cost (expiry clock ttl) c
          ≡ ok r)
        × (ok r.1 ≡ ok c')
  unfolding perform
  perform-until c' e =
      let (r, run, same) =
        >>=-eq-ok (set_with_ttl order fuel clock key conflict value cost ttl c) _ e in
      (r, set_with_ttl-until order fuel clock key conflict value cost ttl c r run, same)

  pub perform-timely :
      (r : Bool × Cache V)
      → timely clock ttl ≡ true
      → set_until order fuel key conflict value cost (expiry clock ttl) c ≡ ok r
      → perform order items fuel (set_call clock key conflict value cost ttl) c ≡ ok r.1
  unfolding perform
  perform-timely r h run =
      >>=-ok (set_with_ttl-timely order fuel clock key conflict value cost ttl c h ∙ run) _

  pub perform-untimely :
      timely clock ttl ≡ false
      → perform order items fuel (set_call clock key conflict value cost ttl) c ≡ panic
  unfolding perform
  perform-untimely h =
      rw (set_with_ttl-untimely order fuel clock key conflict value cost ttl c h) refl
