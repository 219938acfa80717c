-- ===== src/Config.antt =====
-- include/configrawdata.hpp and src/library_src/configrawdata.cpp.
pub mod Types
pub mod Hash
pub mod Print
