-- ===== src/Statsd.antt =====
-- internal/statsd: metrics in the format of statsd.
pub mod Format
pub mod Written
pub mod Metrics
pub mod Gauges
pub mod Tagging
pub mod Destination
pub mod Connections
