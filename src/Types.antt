-- ===== src/Types.antt =====
-- vanargand-types: the protocol's data types.
pub mod Amount
pub mod Nonce
pub mod Window
pub mod Merkle
pub mod Codec
pub mod Name
pub mod Tx
