-- ===== src/Metrics.antt =====
-- `Metrics` of src/cache.rs. The rows of `all` are clones of one pointer, and since no operation
-- writes to them a row is its contents here; a null pointer is `none`.
use memory_cache_rust.Prelude.{
  ℕ, zero, suc, ◌+◌, ◌*◌, ◌%◌, ◌^◌, ◌<◌, ◌≡◌, refl, List, [], ◌∷◌, Option, none, some, Run, ok,
  panic, replicate, get_elem?, arith, ◌⊎◌,
}

pub record Metrics : Type 0 where
  pub all : List (Option (List ℕ))

-- The kinds of counters.
abbrev pub key_add : ℕ
key_add = 2

abbrev pub hit : ℕ
hit = 0

abbrev pub miss : ℕ
miss = 1

abbrev pub key_update : ℕ
key_update = 3

abbrev pub cost_add : ℕ
cost_add = 5

abbrev pub keep_gets : ℕ
keep_gets = 10

abbrev pub do_not_use : ℕ
do_not_use = 11

unfoldable pub new : ℕ → Metrics
new n = record { all = replicate n (some (replicate 256 0)) }

sum_from : ℕ → List ℕ → ℕ
sum_from total [] = total
sum_from total (d ∷ ds) = sum_from ((total + d) % 2 ^ 64) ds

unfoldable pub get : ℕ → Metrics → Run ℕ
unfolding sum_from
get t m = elim (get_elem? m.all t) [
  | none ↦ panic
  | some none ↦ ok 0
  | some (some row) ↦ ok (sum_from 0 row)
]

abbrev pub drop_sets : ℕ
drop_sets = 7

unfoldable pub sets_dropped : Metrics → Run ℕ
unfolding get
sets_dropped m = get drop_sets m

-- The sum that `checked_add` returns is dropped.
unfoldable pub add : ℕ → ℕ → ℕ → Metrics → Run Metrics
add t hash delta m = elim (get_elem? m.all t) [
  | none ↦ panic
  | some none ↦ panic
  | some (some row) ↦ elim (get_elem? row (hash % 5 * 10)) [ none ↦ panic | some d ↦ ok m ]
]

unfoldable pub clear : Metrics → Metrics
clear m = m

-- No operation changes a counter, so a pointer to the metrics is null or stands for new ones.
abbrev pub IsUnused : Option Metrics → Type 0
IsUnused m = (m ≡ none) ⊎ (m ≡ some (new do_not_use))

sum_from_zero : (n : ℕ) → sum_from 0 (replicate n 0) ≡ 0
unfolding sum_from
sum_from_zero zero = refl
sum_from_zero (suc n) = sum_from_zero n

row_of :
    (n t : ℕ)
    → t < n
    → get_elem? (replicate {A = Option (List ℕ)} n (some (replicate 256 0))) t
      ≡ some (some (replicate 256 0))
row_of zero t h = absurd (omega arith)
row_of (suc n) zero h = refl
row_of (suc n) (suc t) h = row_of n t (omega arith)

cell_of : (n i : ℕ) → i < n → get_elem? (replicate {A = ℕ} n 0) i ≡ some 0
cell_of zero i h = absurd (omega arith)
cell_of (suc n) zero h = refl
cell_of (suc n) (suc i) h = cell_of n i (omega arith)

-- On the metrics of a cache every addition to one of the eleven counters succeeds and changes
-- nothing, and every counter reads 0.
pub add-get-new :
    (t hash delta : ℕ)
    → t < do_not_use
    → (add t hash delta (new do_not_use) ≡ ok (new do_not_use)) × (get t (new do_not_use) ≡ ok 0)
unfolding add get
add-get-new t hash delta h = (
  unfold new in ground (arith, row_of 11 t h, cell_of 256 (hash % 5 * 10)),
  unfold new in ground (arith, row_of 11 t h, sum_from_zero 256),
)
