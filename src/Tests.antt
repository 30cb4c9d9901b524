-- ===== src/Tests.antt =====
-- The theorems at concrete inputs.
pub mod Data
mod Frequency
mod Keys
mod Threads
mod Calls
mod Histories
pub mod Replays
mod Passed
mod Costs
mod Storage
mod Whole
