-- ===== src/Consensus.antt =====
-- The consensus of vanargand-consensus/src.
pub mod Weight
pub mod Emission
pub mod Delay
pub mod Seed
pub mod Validator
pub mod Committee
pub mod Certificate
pub mod Leak
