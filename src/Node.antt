-- ===== src/Node.antt =====
-- The node of vanargand-node/src: what a block is, when it is accepted, and how one is built.
pub mod Block
pub mod Validate
pub mod Propose
