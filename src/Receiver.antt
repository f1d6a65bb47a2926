-- ===== src/Receiver.antt =====
-- internal/server/receiver/receiver.go: metrics that are written to the agent as JSON.
pub mod Samples
pub mod Bins
pub mod Parse
pub mod Ranges
pub mod Recorded
