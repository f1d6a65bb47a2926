-- ===== src/Check.antt =====
-- internal/check: the agent's check, its broker, and what the reverse connections are made from.
pub mod Config
pub mod Broker
pub mod Refresh
pub mod Matching
pub mod Complete
pub mod Select
pub mod Fastest
pub mod Bundle
pub mod Create
pub mod Tagged
