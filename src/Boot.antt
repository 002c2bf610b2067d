-- ===== src/Boot.antt =====
-- boards/nxp/rt1050_custom, what the boot ROM reads.
pub mod DcdData
pub mod DcdComments
pub mod Dcd
pub mod Lut
pub mod Flash
pub mod Layout
pub mod Config
pub mod Image
pub mod Hyperflash
pub mod Sequences
mod Tests
