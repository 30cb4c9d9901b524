-- ===== src/Prelude/Int.antt =====
-- Signed integers over the native numbers, under the library's names, and the 64-bit machine word.
use memory_cache_rust.Prelude.Tests.{ltb, leb, if◌then◌else◌, Eq, nat_beq}
use Prim.Native.Nat.{ℕ, suc, ◌+◌, ◌-◌, ◌%◌, ◌/◌, ◌^◌, ◌≤◌, ◌<◌}
use mathlib.Core.Path.{◌≡◌, ap, ◌∙◌}
use mathlib.Core.Logic.{◌↔◌}
use mathlib.Core.Bool.{Bool, true, false}
use native.Mathlib.Omega.{arith}

-- `negsuc n` is -(n + 1).
pub data ℤ : Type 0 where
  pos : ℕ → ℤ
  negsuc : ℕ → ℤ

abbrev pub pos_part : ℤ → ℕ
pos_part (pos n) = n
pos_part (negsuc n) = 0

abbrev pub neg_part : ℤ → ℕ
neg_part (pos n) = 0
neg_part (negsuc n) = suc n

abbrev pub sub_ℕ : ℕ → ℕ → ℤ
sub_ℕ a b = if leb b a then pos (a - b) else negsuc (b - a - 1)

infixl 65 ◌+ℤ◌ ◌-ℤ◌
infix 50 ◌≤ℤ◌
unfoldable pub ◌+ℤ◌ : ℤ → ℤ → ℤ
a +ℤ b = sub_ℕ (pos_part a + pos_part b) (neg_part a + neg_part b)

unfoldable pub ◌-ℤ◌ : ℤ → ℤ → ℤ
a -ℤ b = sub_ℕ (pos_part a + neg_part b) (neg_part a + pos_part b)

abbrev pub ◌≤ℤ◌ : ℤ → ℤ → Type 0
a ≤ℤ b = pos_part a + neg_part b ≤ pos_part b + neg_part a

abbrev pub ltb_ℤ : ℤ → ℤ → Bool
ltb_ℤ a b = ltb (pos_part a + neg_part b) (pos_part b + neg_part a)

abbrev pub int_beq : ℤ → ℤ → Bool
int_beq (pos a) (pos b) = nat_beq a b
int_beq (pos a) (negsuc b) = false
int_beq (negsuc a) (pos b) = false
int_beq (negsuc a) (negsuc b) = nat_beq a b

pub int_beq_iff : (a b : ℤ) → (int_beq a b ≡ true) ↔ (a ≡ b)
int_beq_iff a b = ground arith

instance abbrev pub int_eq : Eq ℤ
int_eq = record { beq = int_beq; beq_iff = int_beq_iff }

pub +ℤ_parts :
    (a b : ℤ)
    → pos_part (a +ℤ b) + neg_part a + neg_part b ≡ neg_part (a +ℤ b) + pos_part a + pos_part b
unfolding ◌+ℤ◌
+ℤ_parts a b = ground arith

pub -ℤ_parts :
    (a b : ℤ)
    → pos_part (a -ℤ b) + neg_part a + pos_part b ≡ neg_part (a -ℤ b) + pos_part a + neg_part b
unfolding ◌-ℤ◌
-ℤ_parts a b = ground arith

pub eq_of_parts : (a b : ℤ) → pos_part a + neg_part b ≡ pos_part b + neg_part a → a ≡ b
eq_of_parts a b h = ground arith

-- An `i64` from its bit pattern.
unfoldable pub as_i64 : ℕ → ℤ
as_i64 n = let u = n % 2 ^ 64 in if ltb u (2 ^ 63) then pos u else negsuc (2 ^ 64 - 1 - u)

-- The result of an `i64` operation: the integer, wrapped into 64 bits.
unfoldable pub wrap_i64 : ℤ → ℤ
unfolding as_i64
wrap_i64 (pos n) = as_i64 n
wrap_i64 (negsuc n) = as_i64 (2 ^ 64 - 1 - n % 2 ^ 64)

abbrev pub IsI64 : ℤ → Type 0
IsI64 z = (pos_part z < 2 ^ 63) × (neg_part z ≤ 2 ^ 63)

pub wrap_i64-eq : (z : ℤ) → IsI64 z → wrap_i64 z ≡ z
unfolding wrap_i64
wrap_i64-eq z h = ground arith

pub wrap_i64-IsI64 : (z : ℤ) → IsI64 (wrap_i64 z)
unfolding wrap_i64
wrap_i64-IsI64 z = ground arith

-- Division by a positive divisor, towards zero.
abbrev pub div_trunc : ℤ → ℕ → ℤ
div_trunc (pos n) d = pos (n / d)
div_trunc (negsuc n) d = sub_ℕ 0 (suc n / d)

pub ruleset int_laws = (arith, +ℤ_parts, -ℤ_parts, eq_of_parts)

-- An `i64` as a `u64`.
abbrev pub as_u64 : ℤ → ℕ
as_u64 (pos n) = n % 2 ^ 64
as_u64 (negsuc n) = 2 ^ 64 - 1 - n % 2 ^ 64

wrap_i64_as : (z : ℤ) → wrap_i64 z ≡ as_i64 (as_u64 z)
unfolding wrap_i64
wrap_i64_as z = ground arith

as_u64-as_i64 : (n : ℕ) → as_u64 (as_i64 n) ≡ n % 2 ^ 64
unfolding as_i64
as_u64-as_i64 n = ground arith

as_u64-add : (a b : ℤ) → as_u64 (a +ℤ b) ≡ (as_u64 a + as_u64 b) % 2 ^ 64
unfolding ◌+ℤ◌
as_u64-add a b = ground arith

as_u64-sub : (a b : ℤ) → as_u64 (a -ℤ b) ≡ (as_u64 a + 2 ^ 64 - as_u64 b) % 2 ^ 64
unfolding ◌-ℤ◌
as_u64-sub a b = ground arith

as_u64-lt : (z : ℤ) → as_u64 z < 2 ^ 64
as_u64-lt (pos n) = omega arith
as_u64-lt (negsuc n) = omega arith

-- Wrapping may be put off to the end of a sum or a difference.
pub wrap_i64-add : (a b : ℤ) → wrap_i64 (wrap_i64 a +ℤ b) ≡ wrap_i64 (a +ℤ b)
wrap_i64-add a b =
    rw (wrap_i64_as (wrap_i64 a +ℤ b), wrap_i64_as (a +ℤ b))
      (ap as_i64 (
        as_u64-add (wrap_i64 a) b
        ∙ (rw (wrap_i64_as a, as_u64-as_i64) (omega (arith, as_u64-add a b)))))

pub wrap_i64-sub : (a b : ℤ) → wrap_i64 (wrap_i64 a -ℤ b) ≡ wrap_i64 (a -ℤ b)
wrap_i64-sub a b =
    rw (wrap_i64_as (wrap_i64 a -ℤ b), wrap_i64_as (a -ℤ b))
      (ap as_i64 (
        as_u64-sub (wrap_i64 a) b
        ∙ (rw (wrap_i64_as a, as_u64-as_i64)
            (omega (arith, as_u64-sub a b, as_u64-lt a, as_u64-lt b)))))

pub wrap_i64-add_right : (a b : ℤ) → wrap_i64 (a +ℤ wrap_i64 b) ≡ wrap_i64 (a +ℤ b)
wrap_i64-add_right a b =
    rw (wrap_i64_as (a +ℤ wrap_i64 b), wrap_i64_as (a +ℤ b))
      (ap as_i64 (
        as_u64-add a (wrap_i64 b)
        ∙ (rw (wrap_i64_as b, as_u64-as_i64) (omega (arith, as_u64-add a b)))))

infix 50 ◌<ℤ◌
abbrev pub ◌<ℤ◌ : ℤ → ℤ → Type 0
a <ℤ b = pos_part a + neg_part b < pos_part b + neg_part a
