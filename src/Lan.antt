-- ===== src/Lan.antt =====
-- app/demos/ethernet_bridge/lan8651_t1s_demo/src/main.c.
pub mod Defs
pub mod Reply
pub mod Net
pub mod Servers
pub mod Leaks
pub mod Datagrams
pub mod Echo
pub mod Kept
pub mod Replies
pub mod Transmit
mod Small
pub mod Main
mod Tests
