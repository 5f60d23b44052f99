-- ===== src/Bourse.antt =====
-- vanargand-bourse: micro-payment channels.
pub mod Payword
pub mod Purse
pub mod Watchtower
