-- ===== src/Units.antt =====
-- The unit tests in the files of src/, as functions that panic where an assertion fails.
pub mod Costs
pub mod Admission
pub mod Nodes
pub mod Counters
use memory_cache_rust.Prelude.{Bool, true, false, Run, ok, panic, Option, some}
use memory_cache_rust.Metrics
use memory_cache_rust.Metrics.{Metrics, do_not_use}

abbrev pub assert : Bool → Run (Unit {0})
assert true = ok tt
assert false = panic

-- The metrics that the tests of src/policy.rs make.
abbrev pub shard_metric : Option Metrics
shard_metric = some (Metrics.new do_not_use)
