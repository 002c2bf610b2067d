-- ===== src/Bridge.antt =====
-- app/demos/ethernet_bridge/bridge/src/main.c.
pub mod Defs
pub mod Ports
pub mod Address
mod Tests
