-- ===== src/AuthToken.antt =====
-- The tokens of the game service: internal/server/authtoken.
pub mod Registry
pub mod Lifetime
pub mod Deadlines
pub mod Refinement
mod Tests
