-- ===== src/Crypto/Frpg.antt =====
-- The packet layouts of internal/crypto/frpgcipher over the cipher mode.
pub mod Stream
pub mod Datagram
pub mod Layout
pub mod Sealing
pub mod Tokens
pub mod Messages
