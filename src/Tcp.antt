-- ===== src/Tcp.antt =====
-- The length-prefixed packets and the messages of the login and auth services over TCP:
-- internal/frpg/packet and internal/frpg/message.
pub mod Framing
pub mod FramingLaws
pub mod Messaging
pub mod MessagingLaws
mod Tests
