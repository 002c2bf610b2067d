-- ===== src/Hrs.antt =====
-- app/demos/rw612-ble-shell/src/main.c.
pub mod Defs
pub mod Beats
pub mod Adverts
mod Tests
