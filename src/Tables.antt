-- ===== src/Tables.antt =====
-- src/kernel/tables: the descriptor tables and the interrupt handler.
pub mod Idt
pub mod Gdt
pub mod Isr
pub mod Frame
pub mod Tests
