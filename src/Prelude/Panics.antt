-- ===== src/Prelude/Panics.antt =====
-- Results of code that can panic, or whose loop can use up the fuel of its model.
use mathlib.Core.Path.{◌≡◌, refl, subst}
use native.Mathlib.Omega.{arith}

pub data Run {ℓ} (A : Type ℓ) : Type ℓ where
  ok : A → Run A
  panic : Run A
  timeout : Run A

infixl 5 ◌>>=◌
abbrev pub ◌>>=◌ {κ ℓ} : {B : Type κ} {A : Type ℓ} → Run A → (A → Run B) → Run B
panic >>= next = panic
timeout >>= next = timeout
ok x >>= next = next x

pub >>=-ok {ℓ κ} :
    {A : Type ℓ} {B : Type κ} {m : Run A} {a : A} → m ≡ ok a → (f : A → Run B) → (m >>= f) ≡ f a
>>=-ok e f = rw e refl

pub >>=-eq-ok {ℓ κ} :
    {A : Type ℓ} {B : Type κ} (run : Run A) (next : A → Run B) {y : B}
    → (run >>= next) ≡ ok y
    → (x : A) × (run ≡ ok x) × (next x ≡ ok y)
>>=-eq-ok panic next e = ground arith
>>=-eq-ok timeout next e = ground arith
>>=-eq-ok (ok x) next e = (x, refl, e)

-- A predicate on the value of a run, `Z` where there is none.
abbrev Holds {ℓ κ} : {A : Type ℓ} → (A → Type κ) → Type κ → Run A → Type κ
Holds P Z (ok a) = P a
Holds P Z panic = Z
Holds P Z timeout = Z

pub subst_ok {ℓ κ} : {A : Type ℓ} (P : A → Type κ) {x y : A} → ok x ≡ ok y → P x → P y
subst_ok P {x} e p = subst (Holds P (P x)) e p
