-- ===== src/Littlefs.antt =====
-- app/demos/littlefs/src/main.c.
pub mod Pattern
pub mod Print
pub mod Fs
pub mod Handles
pub mod Block
pub mod File
pub mod Counted
pub mod Adjusted
mod Tests
