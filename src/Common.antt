-- ===== src/Common.antt =====
-- include/hip_moi/common.hpp.
pub mod Kinds
pub mod Hash
pub mod Ranges
pub mod Dispatch
