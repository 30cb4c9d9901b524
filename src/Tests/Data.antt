-- ===== src/Tests/Data.antt =====
-- The inputs of the tests: a blank sketch, a filter of 512 indices, and a policy, a store and a cache around them.
use memory_cache_rust.Prelude.{ℕ, ◌≡◌, refl, ok, false, List, none, some, replicate, arith}
use memory_cache_rust.Prelude.Int.{ℤ, pos}
use memory_cache_rust.Prelude.HashMap.{HashMap}
use memory_cache_rust.Bloom
use memory_cache_rust.Bloom.{Bloom}
use memory_cache_rust.Bloom.Insert.{clear-member}
use memory_cache_rust.Bloom.Member
use memory_cache_rust.Item.{Item, Node, item_new}
use memory_cache_rust.Policy.Samples.{IsOrder}
use memory_cache_rust.Policy.{DefaultPolicy}
use memory_cache_rust.SampledLfu.{PolicyPair}
use memory_cache_rust.Sketch.Covers.{blank, blank-Covers, estimate-Covers}
use memory_cache_rust.Store
use memory_cache_rust.Store.{Store, put}
use memory_cache_rust.Store.View.{Changed, shard_of, view, put-Changed}
use memory_cache_rust.Cache.Evict.{Stocked, Stocked-Changed, new-Stocked}
use memory_cache_rust.TinyLfu
use memory_cache_rust.TinyLfu.{TinyLfu}
use memory_cache_rust.TinyLfu.Reach
use memory_cache_rust.Ttl

abbrev pub door : Bloom
door = record {
  bitset = replicate 8 0;
  elem_num = 0;
  size_exp = 9;
  size = 511;
  set_locs = 2;
  shift = 55;
}

pub door-IsValid : Member.IsValid door
door-IsValid = record { fits = omega arith }

pub door_shut : (h : ℕ) → Member.member door h ≡ false
unfolding Bloom.clear
door_shut = (clear-member door door-IsValid).1 (omega arith)

abbrev pub tiny : TinyLfu
tiny = record { freq = blank 5 8; door = door; incrs = pos 0; reset_at = pos 100 }

pub tiny-IsValid : Reach.IsValid 0 tiny
tiny-IsValid = record {
  counts = ((λ h. 0), blank-Covers 5 8 (omega arith));
  door = door-IsValid;
  some_locs = omega arith;
}

pub no_hits : (key : ℕ) → TinyLfu.estimate key tiny ≡ ok 0
unfolding TinyLfu.estimate
no_hits key =
    let (e, run, lo, hi, small) =
      estimate-Covers (λ h. 0) 0 key (blank 5 8) (blank-Covers 5 8 (omega arith)) in
    let zero : e ≡ 0 = omega arith in
    rw run (rw (Member.has-member key door door-IsValid) (rw (door_shut key) (rw zero refl)))

abbrev pub in_order : HashMap ℕ ℤ → List PolicyPair
in_order m = m

pub in_order-IsOrder : IsOrder in_order
in_order-IsOrder = record { visits = λ P m a. a; some_visit = λ m h. h }

abbrev pub policy : HashMap ℕ ℤ → ℤ → ℤ → DefaultPolicy
policy costs used max_cost = record {
  admit = tiny;
  evict = record { key_costs = costs; max_cost = max_cost; used = used; metrics = none };
  metrics = none;
  number_counters = pos 100;
  max_cost = max_cost;
}

abbrev pub node : Node ℕ
node = record { key = 7; conflict = 3; value = some 40; expiration = some 0 }

abbrev pub item : ℕ → Item ℕ
item v = record {
  flag = item_new;
  key = 7;
  conflict = 3;
  value = some v;
  cost = pos 1;
  expiration = some 0;
}

-- A store with one node.
unfoldable pub one : Store ℕ
one = put 7 node (shard_of Store.new 7) Ttl.new Store.new

one-Changed : Changed 7 (some node) Store.new one
unfolding one
one-Changed = put-Changed 7 node Ttl.new Store.new new-Stocked.valid

pub view-one : view one 7 ≡ some node
view-one = one-Changed.here

pub one-Stocked : Stocked one
one-Stocked =
    Stocked-Changed 7 (some node) Store.new one new-Stocked (λ e. absurd (ground arith)) one-Changed
