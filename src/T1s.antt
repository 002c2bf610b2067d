-- ===== src/T1s.antt =====
-- app/demos/ethernet_bridge/t1s_device/src/main.c.
pub mod Defs
pub mod Led
pub mod Text
pub mod Clients
pub mod Bag
pub mod Table
pub mod Rounds
pub mod Threads
pub mod Told
pub mod Synced
pub mod Firmware
pub mod Main
pub mod Service
mod Tests
