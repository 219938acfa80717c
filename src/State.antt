-- ===== src/State.antt =====
-- The states of the monitored resources: CpuState, RamState and HddState.
pub mod Compare
pub mod Cpu
pub mod Ram
pub mod Hdd
pub mod Verdicts
