-- ===== src/Game.antt =====
-- The combat engine, backend/src/game.
pub mod Types
pub mod Constants
pub mod Rng
pub mod Store
pub mod Damage
pub mod Targeting
pub mod Abilities
pub mod Engine
pub mod Change
pub mod Evolution
pub mod Timeline
mod Tests
