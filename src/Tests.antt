-- ===== src/Tests.antt =====
-- Examples at concrete inputs.
mod State
mod Shadow
mod Layout
mod Watchpoints
mod Accesses
mod Releases
mod Hosts
mod Steps
mod Publishers
