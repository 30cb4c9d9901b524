-- ===== src/Sketch/Print.antt =====
-- `CmRows::string` of src/cmsketch.rs: the counters of a row in two digits each, with a blank after each. A string is its bytes.
use memory_cache_rust.Prelude.{
  ℕ, zero, suc, ◌+◌, ◌*◌, ◌-◌, ◌/◌, ◌%◌, ◌<◌, ◌≤◌, ◌≡◌, ◌∙◌, refl, sym, ap, List, [], ◌∷◌, ◌++◌,
  Run, ok, ◌>>=◌, >>=-ok, length, get_or, arith,
}
use memory_cache_rust.Sketch.Row
use memory_cache_rust.Sketch.Row.{CmRows, counter, counter-lt, get-counter}

-- A counter has at most two digits.
abbrev pub digits : ℕ → List ℕ
digits v = (48 + v / 10 % 10) ∷ (48 + v % 10) ∷ 32 ∷ []

-- The loop at `i`, with `left` rounds to go.
unfoldable pub string_from : ℕ → ℕ → CmRows → Run (List ℕ)
string_from zero i row = ok []
string_from (suc left) i row = do
  v ← Row.get i row
  rest ← string_from left (i + 1) row
  ok (digits v ++ rest)

unfoldable pub string : CmRows → Run (List ℕ)
unfolding string_from
string row = string_from (length row * 2) 0 row

-- The numbers that a string shows.
abbrev pub read_back : List ℕ → List ℕ
read_back [] = []
read_back (a ∷ []) = []
read_back (a ∷ b ∷ []) = []
read_back (a ∷ b ∷ c ∷ rest) = ((a - 48) * 10 + (b - 48)) ∷ read_back rest

first_shown : (v : ℕ) (rest : List ℕ) → v < 16 → read_back (digits v ++ rest) ≡ v ∷ read_back rest
first_shown v rest small = ap (λ n. n ∷ read_back rest) (omega (arith, small))

string_from-shows :
    (left i : ℕ) (row : CmRows)
    → i + left ≤ length row * 2
    → (s : List ℕ) × (string_from left i row ≡ ok s)
      × ((j : ℕ) → j < left → get_or (read_back s) j 0 ≡ counter row (i + j))
unfolding string_from
string_from-shows zero i row h = ([], refl, λ j lt. absurd (omega (arith, lt)))
string_from-shows (suc left) i row h =
    let (s, run, shown) = string_from-shows left (i + 1) row (omega (arith, h)) in
    let v = counter row i in
    let read = get-counter i row (omega (arith, h)) in
    let first = first_shown v s (counter-lt row i) in
    (
      digits v ++ s,
      >>=-ok read _ ∙ >>=-ok run _,
      λ j lt. ap (λ ns. get_or ns j 0) first ∙ at_place j s lt shown,
    )
  where
    at_place :
        (j : ℕ) (s : List ℕ)
        → j < suc left
        → ((j : ℕ) → j < left → get_or (read_back s) j 0 ≡ counter row (i + 1 + j))
        → get_or (counter row i ∷ read_back s) j 0 ≡ counter row (i + j)
    at_place zero s lt shown = ap (counter row) (omega arith)
    at_place (suc j) s lt shown = shown j (omega (arith, lt)) ∙ ap (counter row) (omega arith)

-- The string of a row shows every counter that a read of the row returns.
pub string-get :
    (row : CmRows) (n : ℕ)
    → n < length row * 2
    → (s : List ℕ) × (string row ≡ ok s) × (Row.get n row ≡ ok (get_or (read_back s) n 0))
unfolding string
string-get row n h =
    let (s, run, shown) = string_from-shows (length row * 2) 0 row (omega arith) in
    (
      s,
      run,
      get-counter n row (omega (arith, h))
          ∙ ap ok (ap (counter row) (omega arith) ∙ sym (shown n h)),
    )
