-- ===== src/CanGen.antt =====
-- app/demos/frdm_can_traffic_generator/src/main.c.
pub mod Board
pub mod Parse
pub mod Defs
pub mod Shell
pub mod Status
pub mod Decimal
pub mod Slots
pub mod Settings
pub mod Accounts
pub mod Balance
pub mod Steps
pub mod Commands
pub mod Recovery
pub mod Sending
pub mod Frames
pub mod Formed
mod Bus
mod Tests
