-- ===== src/Sync.antt =====
-- app/demos/synchronization/src/main.c.
pub mod Defs
pub mod Phases
pub mod Turns
mod Tests
