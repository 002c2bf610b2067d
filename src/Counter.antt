-- ===== src/Counter.antt =====
-- app/demos/can_counter/src/main.c.
pub mod Defs
pub mod Led
pub mod Poll
pub mod Blink
pub mod States
pub mod Sends
mod Tests
