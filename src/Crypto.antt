-- ===== src/Crypto.antt =====
-- vanargand-crypto: the hash chain. The hash itself is blake3, a parameter.
pub mod Chain
