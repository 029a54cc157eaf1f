-- ===== src/Interrupt.antt =====
-- interrupt.c: the interrupt descriptor table and the handler that every entry leads to.
pub mod Table
pub mod Handler
pub mod Sequence
mod Tests
