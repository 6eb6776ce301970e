-- ===== src/Network.antt =====
-- rpt-network: the protocol-level part of the network backend.
pub mod Backend
pub mod Commands
pub mod Pipelines
pub mod Handlers
pub mod Websocket
pub mod Waiting
