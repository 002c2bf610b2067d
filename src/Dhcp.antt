-- ===== src/Dhcp.antt =====
-- app/demos/dhcpv4_client/src/main.c.
pub mod Defs
pub mod Leases
mod Tests
