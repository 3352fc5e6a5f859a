-- ===== src/Runtime.antt =====
-- The match runtime, backend/src/runtime.
pub mod State
pub mod Rules
pub mod Effects
pub mod Store
pub mod Combat
pub mod Flow
pub mod Rounds
pub mod Place
pub mod Ready
pub mod Tests
