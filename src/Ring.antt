-- ===== src/Ring.antt =====
-- src/ring.rs: the buffer of accessed keys. `data` is an atomic pointer, `none` if null; the
-- consumer is the cache's own policy, which `push` takes and returns.
pub mod Buffer
use memory_cache_rust.Prelude.{
  ℕ, true, List, [], ◌∷◌, ◌++◌, Option, none, some, leb, if◌then◌else◌, Run, ok, ◌>>=◌, length,
  replicate, ◌≡◌, refl, ◌⊎◌, inl, inr, arith, length-append, length-replicate,
}
use memory_cache_rust.Policy
use memory_cache_rust.Policy.{DefaultPolicy}

pub record RingStripe : Type 0 where
  pub buffer : Option (List ℕ)
  pub capa : ℕ

unfoldable pub new : ℕ → RingStripe
new capa = record { buffer = none; capa = capa }

-- The vector that is sent to the consumer: a new one, unless the old one is empty.
unfoldable pub drained : List ℕ → List ℕ
drained [] = []
drained (x ∷ xs) = []

unfoldable pub push : ℕ → RingStripe → DefaultPolicy → Run (RingStripe × DefaultPolicy)
unfolding drained
push item r p =
    let old : List ℕ = elim r.buffer [ none ↦ replicate r.capa 0 | some d ↦ d ] in
    let filled = old ++ item ∷ [] in
    if leb r.capa (length filled)
    then (Policy.push (drained filled) p >>= λ sent.
        if sent.0
        then ok (record r { buffer = some (replicate r.capa 0) }, sent.1)
        else ok (record r { buffer = some (replicate r.capa 0) }, sent.1))
    else ok (record r { buffer = some filled }, p)

-- The buffer of a stripe is null or full of zeros.
abbrev pub IsZeroed : RingStripe → Type 0
IsZeroed r = (r.buffer ≡ none) ⊎ (r.buffer ≡ some (replicate r.capa 0))

-- The stripe after a push that sends.
abbrev pub refilled : RingStripe → RingStripe
refilled r = record r { buffer = some (replicate r.capa 0) }

drained_one : (xs : List ℕ) (x : ℕ) → drained (xs ++ x ∷ []) ≡ []
unfolding drained
drained_one [] x = refl
drained_one (y ∷ ys) x = refl

full : (n x : ℕ) → leb n (length (replicate n 0 ++ x ∷ [])) ≡ true
full n x =
    let zeros : List ℕ = replicate n 0 in
    let e : length zeros ≡ n = length-replicate n 0 in
    ground (arith, length-append zeros (x ∷ []), e)

-- A push onto a buffer that is null or full of zeros, for any capacity, returns; it leaves the policy as it was, so the key is
-- lost, and it leaves a buffer of zeros, of the full length.
pub push-IsZeroed :
    (item : ℕ) (r : RingStripe) (p : DefaultPolicy)
    → IsZeroed r
    → push item r p ≡ ok (refilled r, p)
unfolding push Policy.push
push-IsZeroed item r p w = elim w [
  | inl e ↦ rw e (rw (full r.capa item) (rw (drained_one (replicate r.capa 0) item) refl))
  | inr e ↦ rw e (rw (full r.capa item) (rw (drained_one (replicate r.capa 0) item) refl))
]

-- A history of pushes.
abbrev pub pushes : List ℕ → RingStripe → DefaultPolicy → Run (RingStripe × DefaultPolicy)
pushes [] r p = ok (r, p)
pushes (k ∷ ks) r p = push k r p >>= λ sent. pushes ks sent.0 sent.1

pushes-IsZeroed :
    (items : List ℕ) (r : RingStripe) (p : DefaultPolicy)
    → IsZeroed r
    → (r' : RingStripe) × (pushes items r p ≡ ok (r', p)) × IsZeroed r' × (r'.capa ≡ r.capa)
pushes-IsZeroed [] r p w = (r, refl, w, refl)
pushes-IsZeroed (k ∷ ks) r p w =
    let (r', run, w', capa) = pushes-IsZeroed ks (refilled r) p (inr refl) in
    (r', rw (push-IsZeroed k r p w) run, w', capa)

-- Every history of pushes onto a new stripe, for any capacity, returns with the policy as it was.
pub pushes-new :
    (items : List ℕ) (capa : ℕ) (p : DefaultPolicy)
    → (r' : RingStripe) × (pushes items (new capa) p ≡ ok (r', p)) × IsZeroed r' × (r'.capa ≡ capa)
unfolding new
pushes-new items capa p = pushes-IsZeroed items (new capa) p (inl refl)
