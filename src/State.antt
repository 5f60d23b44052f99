-- ===== src/State.antt =====
-- vanargand-state: the ledger's books and the application of transactions.
pub mod Account
pub mod Asset
pub mod NameBook
pub mod Recovery
pub mod Slashing
pub mod PurseBook
pub mod Ledger
