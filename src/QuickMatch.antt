-- ===== src/QuickMatch.antt =====
-- The quick matches of the arenas: internal/server/game/quickmatch.go.
pub mod Store
pub mod Handlers
pub mod Viewers
pub mod Searching
pub mod Registrations
pub mod Requests
pub mod LastWord
pub mod Removal
pub mod Aliases
mod Tests
