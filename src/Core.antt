-- ===== src/Core.antt =====
-- rpt-core: timers, services and the protocol that routes requests and events between them.
pub mod Timer
pub mod Service
pub mod Protocol
pub mod Executor
pub mod InputEvent
