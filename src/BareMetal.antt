-- ===== src/BareMetal.antt =====
-- app/demos/bare_metal_direct: an LED by the registers of its port.
pub mod Defs
pub mod Pins
mod Tests
