-- ===== src/Lib.antt =====
-- memory-cache-rust: a cache that admits by frequency and evicts by cost.
--
-- The parts. A `Cache` (src/cache.rs) has a sharded store of nodes (src/store.rs), a policy
-- (src/policy.rs) that decides which keys stay, a ring buffer (src/ring.rs) that gathers the accessed
-- keys for the policy, and counters. The policy is a `TinyLFU`, which estimates how often a key is
-- accessed from a count-min sketch (src/cmsketch.rs) behind a Bloom filter (src/bloom/bbloom.rs), and a
-- `SampledLFU`, which has the keys' costs. The store has an expiration map (src/ttl.rs).
--
-- The files.
--   Prelude.antt and Prelude/: tests, lists, panics, 64-bit integers, bits and hash maps.
--   Sketch.antt, Sketch/Row.antt: CmSketch and CmRows. Sketch/Power: next_2_power; Sketch/Covers: the
--     bounds of the counters; Sketch/Count: what a sketch counts; Sketch/Uniform: its rows and their
--     seed; Sketch/Print: the string of a row.
--   Bloom.antt: Bloom and getSize. Bloom/Cells: one bit; Bloom/Member: has; Bloom/Insert: add, clear
--     and the constructor.
--   TinyLfu.antt: TinyLFU. TinyLfu/Reach: well-formed states; TinyLfu/Stuck: repeated accesses;
--     TinyLfu/Seen: accesses to any keys.
--   SampledLfu.antt: SampledLFU. SampledLfu/Costs: the sum of the costs; SampledLfu/Budget: the
--     arithmetic within a capacity; SampledLfu/Updates: a cost given again.
--   Policy.antt: DefaultPolicy. Policy/Scan: the least frequent pair; Policy/Loop: a round of the
--     eviction loop; Policy/Capacity: the capacity; Policy/Diverge: the loop on a full sample;
--     Policy/Samples, Policy/Rounds, Policy/Enough: its fuel; Policy/Ends: what the evictions keep;
--     Policy/Kept: what an addition leaves as it was.
--   Metrics.antt, Item.antt: Metrics, ItemFlag, Item, Node.
--   Ring.antt: RingStripe; Ring/Buffer: RingBuffer, which is one stripe. The cache's `get_buf` is the
--     stripe. Ttl.antt: ExpirationMap; Ttl/Inert: its guards.
--   Store.antt: Store. Store/View: the store as a partial map; Store/Refine: set, update and del as
--     changes of that map; Store/Reads: get after the other operations.
--   Hash.antt: Cache::hash and the functions of src/bloom/haskey.rs, src/bloom/hasher.rs and
--     src/bloom/rutil.rs. Hash/Laws: the hashes of integers.
--   Reclaim.antt: the pointers of src/reclaim.rs.
--   Cache.antt: Cache. Cache/Reads: get; Cache/Expiry: the expiration of an item; Cache/Evict: the
--     victims; Cache/Writes: set_with_ttl and del, in Cache/Writes/Asks the answers of the policy, and in
--     Cache/Writes/Written set_with_ttl with its expiration. Cache/Fresh: reads after
--     writes.
--   Cache/History.antt: histories of calls. Cache/History/Sound: what the calls keep;
--     Cache/History/Answers: what they return; Cache/History/Timed: the expirations.
--   Cache/Coherent.antt: store and policy. Cache/Coherent/Costs: the keys that leave the policy;
--     Cache/Coherent/Agree: an insertion; Cache/Coherent/Along: a history;
--     Cache/Coherent/Priced, Cache/Coherent/Charged: its costs.
--   Cache/Replay.antt: the map without bounds that a history of calls writes, and what the cache holds
--     of it. Cache/Replay/Chosen, Cache/Replay/Spared: the keys that an addition evicts;
--     Cache/Replay/Exact: an insertion and a deletion; Cache/Replay/Along: a history;
--     Cache/Replay/Roomy, Cache/Replay/Lossless: histories that fit the capacity;
--     Cache/Replay/Decided, Cache/Replay/Whole: which of these return.
--   Cache/Total.antt: which histories return. Cache/Total/Steady: the policy; Cache/Total/Along: a
--     history; Cache/Total/Whole: from the constructor on; Cache/Total/Recent: the newest key.
--   Cache/Init.antt: init_store and init_ringbuf by many threads. Cache/Init/Lock: the invariant;
--     Cache/Init/Safe: its consequences; Cache/Init/Wait: turns until the end; Cache/Init/Free: that
--     there are such turns.
--   Cache/Owner.antt: Clone and Drop of a cache. Cache/Owner/Freed: what they free.
--   Cache/Process.antt: process_items and init_policy. Cache/Process/Refused: its loop.
--   Units.antt and Units/: the unit tests in the files of src/; Tests/Passed runs them.
--   Tests.antt and Tests/: the theorems at concrete inputs.
-- An operation is a function of the same name, in snake case; `Store::set` is `set_node`. It takes the
-- state and returns the new one in `Run`, which is a value, a panic, or fuel that has run out.
--
-- The model. A word of w bits is a natural number or an integer with its wrap-around written out, so
-- the arithmetic is that of a release build. An `i64` is an integer, and a `usize` has 64 bits. A
-- vector is a list. A hash map is a list of entries with each key once; code that iterates over one takes the order of iteration as a
-- parameter. An atomic pointer is an option, `none` if null. The metrics that the cache and its policy
-- share are copied, since no operation writes to them. A duration is its nanoseconds; the answer of the
-- clock's `elapsed` in `set_with_ttl` is an option, `none` for an error.
--
-- Threads. A thread in the loop of `init_store` or `init_ringbuf` makes one access in a turn, and a
-- schedule is a list of turns; every access is sequentially consistent. A table stands at the address
-- at which it was boxed.
--
-- Fuel. The eviction loop of `DefaultPolicy::add` has fuel, a unit for a round. `getSize` has 65
-- rounds, which are enough up to 2^63, where the size is doubled 63 times. `Cache::clear` has the depth
-- of its recursion. The loops of `process_items` and `init_policy` have a number of rounds.
--
-- Parameters. The floating point operations that size the filter are a record `Floats`, and the hash
-- functions of other crates a record `Hashers`. The seed of a sketch, the readings of the clock, what a
-- guard's `retire` and the collector's `link_boxed` do, the pair of hashes of a key, the address of a bitset and the JSON writer are arguments.
--
-- Not modelled. The locks: outside Cache/Init, every operation is one step. The garbage collector
-- behind src/reclaim.rs, which no code hands a pointer to; outside Reclaim.antt, Cache/Owner.antt and
-- Cache/Init.antt a pointer is its value. The callbacks `on_evict` and `cost`, which no constructor
-- sets. The formatting of a cache and of a pointer for debugging, the trait `Policy`, which no type
-- implements, and the code that is commented out. The unit tests of src/cache.rs run
-- threads, sleep, or build ten million counters; those in tests/ and the benchmarks only call the
-- library.
pub mod Prelude
pub mod Sketch
pub mod Bloom
pub mod TinyLfu
pub mod Metrics
pub mod Item
pub mod SampledLfu
pub mod Policy
pub mod Ring
pub mod Ttl
pub mod Store
pub mod Cache
pub mod Tests
pub mod Hash
pub mod Reclaim
pub mod Units
