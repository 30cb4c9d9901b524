-- ===== src/Cache/Coherent.antt =====
-- What the policy and the store of src/cache.rs agree on.
pub mod Costs
pub mod Agree
pub mod Along
pub mod Charged
pub mod Priced
