-- ===== src/Procfs.antt =====
-- internal/builtins/collector/linux/procfs: the collectors of linux.
pub mod Common
pub mod Load
pub mod Memory
pub mod Vm
pub mod Cpu
pub mod Reading
pub mod Balance
pub mod Causes
pub mod Status
