-- ===== src/Display.antt =====
-- app/demos/display/src/main.c.
pub mod Fill
pub mod Layout
pub mod Bounds
pub mod Drawing
pub mod Acts
pub mod Shown
pub mod Pixels
mod Grey
mod Tests
