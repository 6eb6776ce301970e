-- ===== src/Tests.antt =====
-- The theorems at concrete inputs.
pub mod Games
pub mod Sessions
pub mod Messages
mod Network
pub mod Server
mod Requests
mod Moves
