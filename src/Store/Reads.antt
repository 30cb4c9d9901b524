-- ===== src/Store/Reads.antt =====
-- What `get` of src/store.rs sees after the other operations, and what `clean_up` does.
use memory_cache_rust.Prelude.{
  ℕ, ◌≡◌, refl, sym, ◌≢◌, ◌∙◌, true, not, List, [], Option, none, some, nat_eq, nat_beq, ok, arith,
  if◌then◌else◌, Option-cases, inl, inr, ◌&&◌, get_or-replicate,
}
use memory_cache_rust.Prelude.HashMap
use memory_cache_rust.Prelude.HashMap.{HashMap}
use memory_cache_rust.Item.{Node}
use memory_cache_rust.Policy.{DefaultPolicy}
use memory_cache_rust.Store.{
  Store, new, from, clear, get, set_node, del, hidden, clean_items, clean_up, num_shards, bini,
}
use memory_cache_rust.Store.Refine.{
  Dated, Valued, admits, matches, taken, set_node-Changed, del-Changed,
}
use memory_cache_rust.Store.View.{IsValid, view, Changed, get-view}
use memory_cache_rust.Ttl.Inert.{inert}

module _ {V : Type 0} where
  -- What `get` returns for a node.
  abbrev pub shown : ℕ → ℕ → Option (Node V) → Option V
  shown elapsed conflict none = none
  shown elapsed conflict (some v) =
      if not (nat_beq conflict 0) && not (nat_beq conflict v.conflict)
      then none
      else if hidden elapsed v.expiration
      then none
      else v.value

  pub get-shown :
      (elapsed key conflict : ℕ) (s : Store V)
      → IsValid s
      → get elapsed key conflict s ≡ ok (shown elapsed conflict (view s key))
  get-shown elapsed key conflict s w =
      get-view elapsed key conflict s w
      ∙ elim (Option-cases (view s key)) [ inl e ↦ rw e refl | inr (v, e) ↦ rw e refl ]

  get-Changed :
      (elapsed key conflict : ℕ) (o : Option (Node V)) (s s' : Store V)
      → IsValid s
      → Changed key o s s'
      → (get elapsed key conflict s' ≡ ok (shown elapsed conflict o))
        × ((j c : ℕ) → key ≢ j → get elapsed j c s' ≡ get elapsed j c s)
  get-Changed elapsed key conflict o s s' w c = (
    get-shown elapsed key conflict s' c.valid ∙ rw c.here refl,
    λ j d h. get-shown elapsed j d s' c.valid ∙ rw (c.there j h) (sym (get-shown elapsed j d s w)),
  )

  -- After a `set` that the conflict hash admits, `get` of the item's key with its conflict hash
  -- returns the value, unless `hidden` holds of the item's expiration and the elapsed time: the
  -- time between the two readings of the clock in `get` is less than the expiration, in
  -- milliseconds. Every other key reads as before. This is on a store with its shards, where no
  -- expiring node is overwritten by one that never expires.
  pub get-set_node :
      (elapsed : ℕ) (item : Node V) (s : Store V)
      → IsValid s
      → Dated item.expiration (view s item.key)
      → admits item.conflict (view s item.key) ≡ true
      → (s' : Store V) × (set_node item s ≡ ok s')
        × (get elapsed item.key item.conflict s'
            ≡ ok (if hidden elapsed item.expiration then none else item.value))
        × ((j c : ℕ) → item.key ≢ j → get elapsed j c s' ≡ get elapsed j c s)
  get-set_node elapsed item s w d a =
      let (s', run, c) = set_node-Changed item s w d in
      let (here, there) =
        get-Changed elapsed item.key item.conflict (some item) s s' w (rw a at c) in
      (s', run, here ∙ ground arith, there)

  -- On a store with its shards, after a `del` of a node with a value and a conflict hash that
  -- fits, which hands the value back, `get` of the key, with any conflict hash, finds nothing, and
  -- every other key reads as before.
  pub get-del :
      (elapsed key conflict : ℕ) (s : Store V)
      → IsValid s
      → Valued (view s key)
      → matches conflict (view s key) ≡ true
      → (s' : Store V) × (del key conflict s ≡ ok (taken (view s key), s'))
        × ((c : ℕ) → get elapsed key c s' ≡ ok none)
        × ((j c : ℕ) → key ≢ j → get elapsed j c s' ≡ get elapsed j c s)
  get-del elapsed key conflict s w d m =
      let (s', run, c) = del-Changed key conflict s w d in
      let c' = rw m at c in
      (
        s',
        run ∙ rw m refl,
        λ k. (get-Changed elapsed key k none s s' w c').0,
        (get-Changed elapsed key conflict none s s' w c').1,
      )

  pub new-IsValid : IsValid (new {V = V})
  unfolding new from
  new-IsValid = record { sharded = refl }

  pub clear-IsValid : (s : Store V) → IsValid (clear s)
  unfolding clear
  clear-IsValid s = record { sharded = refl }

  pub view-new : (key : ℕ) → view (new {V = V}) key ≡ none
  unfolding new from HashMap.get
  view-new key = rw (get_or-replicate {A = HashMap ℕ (Node V)} num_shards (bini key) []) refl

  view-clear : (s : Store V) (key : ℕ) → view (clear s) key ≡ none
  unfolding clear HashMap.get
  view-clear s key = rw (get_or-replicate {A = HashMap ℕ (Node V)} num_shards (bini key) []) refl

  -- After `clear`, from any state, `get` finds no key.
  pub get-clear :
      (elapsed key conflict : ℕ) (s : Store V) → get elapsed key conflict (clear s) ≡ ok none
  get-clear elapsed key conflict s =
      get-shown elapsed key conflict (clear s) (clear-IsValid s) ∙ rw (view-clear s key) refl

-- A clean-up, where an empty map has nothing to iterate over, returns with the store and the
-- policy as they were, at any time and from any state.
pub clean_up-same :
    {V : Type 0} (items : HashMap ℕ ℕ → List (ℕ × ℕ)) (now : ℕ) (s : Store V) (p : DefaultPolicy)
    → items [] ≡ []
    → clean_up items now s p ≡ ok (s, p)
unfolding clean_up clean_items
clean_up-same items now s p none_due =
    let (kept, due, same) = inert s.em 0 0 0 now in rw due (rw none_due refl)
