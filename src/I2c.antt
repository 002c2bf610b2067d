-- ===== src/I2c.antt =====
-- app/demos/i2c_shell/src/main.c.
pub mod Defs
pub mod Reading
mod Tests
