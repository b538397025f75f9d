-- ===== src/Crypto/Cwc.antt =====
-- The cipher mode of internal/crypto/cwc.
pub mod Hash
pub mod HashLaws
pub mod Context
pub mod Absorbing
pub mod KeyStream
pub mod Tag
pub mod RoundTrip
