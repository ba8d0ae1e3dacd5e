-- ===== src/Boot.antt =====
-- boot/gdt_idt.c: the descriptor tables and the interrupt controllers. The loading of the tables
-- into the processor is assembly and not modelled.
pub mod Gdt
pub mod Idt
pub mod Irq
mod Tests
