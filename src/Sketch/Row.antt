-- ===== src/Sketch/Row.antt =====
-- `CmRows` of src/cmsketch.rs: two four-bit counters to a byte.
use memory_cache_rust.Prelude.{
  ℕ, zero, suc, ◌+◌, ◌*◌, ◌/◌, ◌%◌, ◌^◌, ◌<◌, min, bit_and, ◌≡◌, refl, ◌≢◌, ◌⊎◌, inl, inr, List, [],
  ◌∷◌, none, some, ltb, nat_beq, Run, ok, panic, ◌>>=◌, if◌then◌else◌, map, length, replicate, set,
  get_elem?, get_or, All, arith, get_elem?-eq-get_or, get_or-set_self, get_or-set_ne, All-get_or,
  All-set, get_or-replicate, All-replicate, length-replicate, length-map, nat_beq_iff, Bool, true,
  ◌&&◌, sym,
}
use native.Mathlib.Decide.{ℕ_discrete}
use memory_cache_rust.Prelude.Bits.{bit_and_mask, bit_and-le}

abbrev pub CmRows : Type 0
CmRows = List ℕ

unfoldable pub new_cm_row : ℕ → CmRows
new_cm_row x = replicate (x / 2) 0

-- `row[i]`, which panics out of range.
unfoldable pub at : CmRows → ℕ → Run ℕ
at row i = elim (get_elem? row i) [ none ↦ panic | some b ↦ ok b ]

at-get_or : (row : CmRows) (i : ℕ) → i < length row → at row i ≡ ok (get_or row i 0)
unfolding at
at-get_or row i h = ground (arith, get_elem?-eq-get_or row i 0 h)

unfoldable pub increment : ℕ → CmRows → Run CmRows
increment n row = do
  let i = n / 2
  let s = bit_and n 1 * 4
  b ← at row i
  let v = bit_and (b / 2 ^ s) 0x0f
  ok (if ltb v 15 then set row i ((b + 2 ^ s) % 2 ^ 8) else row)

unfoldable pub get : ℕ → CmRows → Run ℕ
get n row = do b ← at row (n / 2); ok (bit_and (b / 2 ^ (bit_and n 1 * 4)) 0x0f)

unfoldable pub reset : CmRows → CmRows
reset = map (λ b. bit_and (b / 2 ^ 1) 0x77)

unfoldable pub clear : CmRows → CmRows
clear = map (λ b. 0)

abbrev pub IsBytes : CmRows → Type 0
IsBytes = All (λ b. b < 256)

-- The counter at `n`, as arithmetic: the low half of byte `n / 2` for an even `n`, else the high.
abbrev pub half : ℕ → ℕ → ℕ
half zero b = b % 16
half (suc p) b = b / 16 % 16

pub counter : CmRows → ℕ → ℕ
counter row n = half (n % 2) (get_or row (n / 2) 0)

half-lt : (p b : ℕ) → half p b < 16
half-lt zero b = omega arith
half-lt (suc p) b = omega arith

parity : (n : ℕ) → ((n % 2 ≡ 0) × (bit_and n 1 ≡ 0)) ⊎ ((n % 2 ≡ 1) × (bit_and n 1 ≡ 1))
parity n = omega (arith, bit_and_mask 1 n)

read_half : (n b : ℕ) → bit_and (b / 2 ^ (bit_and n 1 * 4)) 0x0f ≡ half (n % 2) b
read_half n b = elim (parity n) [
  | inl (e, f) ↦ rw (e, f) (omega (arith, bit_and_mask 4 (b / 1)))
  | inr (e, f) ↦ rw (e, f) (omega (arith, bit_and_mask 4 (b / 16)))
]

-- A read in range does not panic.
pub get-counter : (n : ℕ) (row : CmRows) → n / 2 < length row → get n row ≡ ok (counter row n)
unfolding get counter
get-counter n row h = rw (at-get_or row (n / 2) h, read_half)

pub counter-lt : (row : CmRows) (n : ℕ) → counter row n < 16
unfolding counter
counter-lt row n = half-lt (n % 2) (get_or row (n / 2) 0)

-- The byte after an increment of its half `p`.
abbrev pub bump : ℕ → ℕ → ℕ
bump zero b = if ltb (b % 16) 15 then b + 1 else b
bump (suc p) b = if ltb (b / 16 % 16) 15 then b + 16 else b

abbrev pub bumped : ℕ → CmRows → CmRows
bumped n row = set row (n / 2) (bump (n % 2) (get_or row (n / 2) 0))

bump-lt : (p b : ℕ) → b < 256 → bump p b < 256
bump-lt zero b h = ground arith
bump-lt (suc p) b h = ground arith

set_same {ℓ} :
    {A : Type ℓ} (xs : List A) (i : ℕ) (d : A) → i < length xs → set xs i (get_or xs i d) ≡ xs
set_same [] i d h = refl
set_same (x ∷ xs) zero d h = refl
set_same (x ∷ xs) (suc i) d h = rw (set_same xs i d (omega arith))

bump-half : (p b : ℕ) → p < 2 → b < 256 → half p (bump p b) ≡ min 15 (half p b + 1)
bump-half zero b h k = ground arith
bump-half (suc p) b h k = ground arith

bump-half_ne : (p q b : ℕ) → p < 2 → q < 2 → p ≢ q → b < 256 → half q (bump p b) ≡ half q b
bump-half_ne zero zero b h k ne l = absurd (ne refl)
bump-half_ne zero (suc q) b h k ne l = ground arith
bump-half_ne (suc p) zero b h k ne l = ground arith
bump-half_ne (suc p) (suc q) b h k ne l = absurd (omega arith)

store_half :
    (n b : ℕ)
    → b < 256
    → (if ltb (half (n % 2) b) 15 then (b + 2 ^ (bit_and n 1 * 4)) % 2 ^ 8 else b) ≡ bump (n % 2) b
store_half n b h = elim (parity n) [
  | inl (e, f) ↦ rw (e, f) (ground arith)
  | inr (e, f) ↦ rw (e, f) (ground arith)
]

-- An increment in range does not panic, and stores the bumped byte.
pub increment-bumped :
    (n : ℕ) (row : CmRows) → n / 2 < length row → IsBytes row → increment n row ≡ ok (bumped n row)
unfolding increment
increment-bumped n row h bytes =
    let b = get_or row (n / 2) 0 in
    rw (at-get_or row (n / 2) h) (
      rw (read_half n b) (
        ground (
          arith,
          store_half n b (All-get_or (λ c. c < 256) row (n / 2) 0 bytes (omega arith)),
          set_same row (n / 2) 0 h,
        )))

pub bumped-IsBytes : (n : ℕ) (row : CmRows) → IsBytes row → IsBytes (bumped n row)
bumped-IsBytes n row bytes =
    All-set (λ c. c < 256) row (n / 2) _ bytes
      (bump-lt (n % 2) _ (All-get_or (λ c. c < 256) row (n / 2) 0 bytes (omega arith)))

-- An increment adds one to its own counter, up to fifteen, and leaves every other counter alone.
pub counter-bumped :
    (n m : ℕ) (row : CmRows)
    → n / 2 < length row
    → IsBytes row
    → counter (bumped n row) m ≡ (if nat_beq n m then min 15 (counter row n + 1) else counter row m)
unfolding counter
counter-bumped n m row h bytes =
    let small = All-get_or (λ c. c < 256) row (n / 2) 0 bytes (omega arith) in
    let b = get_or row (n / 2) 0 in
    elim (ℕ_discrete (n / 2) (m / 2)) [
      | no other ↦ rw (get_or-set_ne row (n / 2) (m / 2) (bump (n % 2) b) 0 other) (ground arith)
      | yes same ↦ rw (← same) (
          rw (get_or-set_self row (n / 2) (bump (n % 2) b) 0 h) (elim (ℕ_discrete (n % 2) (m % 2)) [
            | yes e ↦ rw (← e) (ground (arith, bump-half (n % 2) b))
            | no d ↦ ground (arith, bump-half_ne (n % 2) (m % 2) b)
          ]))
    ]

half_zero : (p : ℕ) → half p 0 ≡ 0
half_zero zero = refl
half_zero (suc p) = refl

get_or-map :
    (f : ℕ → ℕ) (row : CmRows) (i : ℕ) → f 0 ≡ 0 → get_or (map f row) i 0 ≡ f (get_or row i 0)
get_or-map f [] i e = sym e
get_or-map f (x ∷ row) zero e = refl
get_or-map f (x ∷ row) (suc i) e = get_or-map f row i e

-- A new row counts zero everywhere.
pub counter-new_cm_row : (x n : ℕ) → counter (new_cm_row x) n ≡ 0
unfolding counter new_cm_row
counter-new_cm_row x n = rw get_or-replicate (half_zero (n % 2))

-- Over a byte, by evaluation: the mask keeps each half from taking a bit of the other.
holds_to : (ℕ → Bool) → ℕ → Bool
holds_to test (suc top) = holds_to test top && test top
holds_to test zero = true

holds_to_lem : (test : ℕ → Bool) (top b : ℕ) → b < top → holds_to test top ≡ true → test b ≡ true
unfolding holds_to
holds_to_lem test (suc top) b lt all = ground (arith, holds_to_lem test top b)
holds_to_lem test zero b lt all = absurd (omega arith)

halve_table :
    holds_to (λ b. nat_beq (bit_and (b / 2) 0x77) (b / 16 / 2 * 16 + b % 16 / 2)) 256 ≡ true
unfolding holds_to
halve_table = refl

halve_half : (p b : ℕ) → b < 256 → half p (bit_and (b / 2) 0x77) ≡ half p b / 2
halve_half zero b h = omega (arith, (nat_beq_iff _ _).0 (holds_to_lem _ 256 b h halve_table))
halve_half (suc p) b h = omega (arith, (nat_beq_iff _ _).0 (holds_to_lem _ 256 b h halve_table))

-- On a row of bytes `reset` halves every four-bit counter.
pub counter-reset : (row : CmRows) (n : ℕ) → IsBytes row → counter (reset row) n ≡ counter row n / 2
unfolding counter reset
counter-reset row n bytes =
    rw (get_or-map _ row (n / 2) refl)
      (halve_half (n % 2) _ (All-get_or (λ c. c < 256) row (n / 2) 0 bytes (omega arith)))

pub counter-clear : (row : CmRows) (n : ℕ) → counter (clear row) n ≡ 0
unfolding counter clear
counter-clear row n = rw (get_or-map (λ b. 0) row (n / 2) refl) (half_zero (n % 2))

pub new_cm_row-IsBytes : (x : ℕ) → IsBytes (new_cm_row x)
unfolding new_cm_row
new_cm_row-IsBytes x = All-replicate (λ b. b < 256) (x / 2) 0 (omega arith)

pub length-new_cm_row : (x : ℕ) → length (new_cm_row x) ≡ x / 2
unfolding new_cm_row
length-new_cm_row x = length-replicate (x / 2) 0

pub reset-IsBytes : (row : CmRows) → IsBytes row → IsBytes (reset row)
unfolding reset
reset-IsBytes [] h = tt
reset-IsBytes (b ∷ row) h = (omega (arith, bit_and-le (b / 2) 0x77), reset-IsBytes row h.1)

pub clear-IsBytes : (row : CmRows) → IsBytes (clear row)
unfolding clear
clear-IsBytes [] = tt
clear-IsBytes (b ∷ row) = (omega arith, clear-IsBytes row)

pub length-reset : (row : CmRows) → length (reset row) ≡ length row
unfolding reset
length-reset row = length-map _ row

pub length-clear : (row : CmRows) → length (clear row) ≡ length row
unfolding clear
length-clear row = length-map _ row
