-- ===== src/Plugins.antt =====
-- internal/plugins: external programs whose output is metrics.
pub mod Output
pub mod Run
pub mod Lifecycle
pub mod Duplicates
pub mod Repeated
pub mod Manager
pub mod Meaning
pub mod Names
pub mod Scanning
pub mod Reserved
pub mod Selection
pub mod Gathering
