-- ===== src/Server.antt =====
-- internal/server: the agent's HTTP server.
pub mod Paths
pub mod Collect
pub mod Export
pub mod Handlers
pub mod Refusals
pub mod Merging
pub mod Items
