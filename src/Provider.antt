-- ===== src/Provider.antt =====
-- The readers of the resources' states.
pub mod Scanning
pub mod Linux
pub mod Windows
