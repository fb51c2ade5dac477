-- ===== src/Shadow.antt =====
-- include/hip_moi/shadow.hpp: the packed words of both backends, and when two entries conflict.
pub mod Kinds
pub mod Exact
pub mod Sampled
