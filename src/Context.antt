-- ===== src/Context.antt =====
-- include/hip_moi/context.hpp.
pub mod Storage
pub mod Subgroups
pub mod Static
pub mod Diagnostics
pub mod Barriers
pub mod Objects
pub mod Producers
pub mod Releases
pub mod Acquires
pub mod Atomics
pub mod Exact
pub mod Sampling
pub mod Sampled
pub mod Policy
pub mod Access
pub mod Kernel
