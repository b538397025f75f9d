-- ===== src/Matchmaking.antt =====
-- The matchmaking filters of the game service: internal/server/game/matchmaking.go.
pub mod Status
pub mod Profile
pub mod Pools
pub mod Moving
pub mod Tiers
pub mod Merging
mod Tests
