-- ===== src/Sampling.antt =====
-- include/SamplingManager.hpp and src/library_src/SamplingManager.cpp.
pub mod Buffer
pub mod Triggers
pub mod Mean
pub mod Logs
pub mod Manager
pub mod Thread
