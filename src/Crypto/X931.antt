-- ===== src/Crypto/X931.antt =====
-- The RSA padding of internal/crypto/x931.
pub mod Padding
pub mod PaddingLaws
pub mod Numbers
pub mod Recovery
mod Tests
