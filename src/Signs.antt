-- ===== src/Signs.antt =====
-- The summon signs and the arena signs of the game service: internal/server/game/sign.go and
-- internal/server/game/mirrorknight.go.
pub mod Store
pub mod Service
pub mod Handlers
pub mod MirrorKnight
pub mod Entries
pub mod Pushes
pub mod Ranges
pub mod Steps
pub mod Requests
pub mod Claims
pub mod Listing
pub mod Answers
pub mod Removal
pub mod Departure
mod Tests
