-- ===== src/Tests.antt =====
-- Runs of the model on concrete inputs, and the theorems applied to them.
pub mod Ledger
pub mod Bourse
pub mod Books
pub mod Consensus
pub mod Codec
pub mod Node
