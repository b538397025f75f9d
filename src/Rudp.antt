-- ===== src/Rudp.antt =====
-- The reliable-UDP transport: internal/frpg/rudp.
pub mod Sequence
pub mod Packet
pub mod Session
pub mod Delivery
pub mod Message
pub mod Fragments
pub mod Connection
pub mod Transport
mod Tests
mod MessageTests
