-- ===== src/TorrsHash.antt =====
-- internal/gostorm/torrshash: the tokens that carry an info hash with its fields.
pub mod Base62
pub mod Digits
pub mod Encoded
pub mod Fields
pub mod Written
pub mod Pack
pub mod Packed
pub mod Token
mod Tests
