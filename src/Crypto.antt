-- ===== src/Crypto.antt =====
-- The packet ciphers: internal/crypto.
pub mod Cwc
pub mod Frpg
pub mod X931
mod Tests
