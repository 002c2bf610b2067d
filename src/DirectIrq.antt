-- ===== src/DirectIrq.antt =====
-- app/demos/direct_irq: a coprocessor and its interrupt.
pub mod Defs
pub mod Order
mod Tests
