-- ===== src/BreakIn.antt =====
-- Invasions: internal/server/game/breakin.go.
pub mod State
pub mod Handlers
pub mod Targets
pub mod Rejections
mod Tests
