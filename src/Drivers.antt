-- ===== src/Drivers.antt =====
-- The drivers, drivers/: the text console and the keyboard of drivers/keyboard.c, the disk of
-- drivers/ata.c.
pub mod Vga
pub mod Keyboard
pub mod Ata
pub mod Serial
pub mod Timer
pub mod Dev
mod Tests
