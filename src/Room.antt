-- ===== src/Room.antt =====
-- Private rooms, backend/src/room: a lobby of two players before their match.
pub mod Types
pub mod Store
pub mod Members
pub mod Requests
pub mod Service
pub mod Codes
mod Tests
