-- ===== src/Drivers.antt =====
-- The drivers under drivers/ that the model covers.
pub mod Vga
pub mod Ahci
pub mod Block
pub mod Keyboard
pub mod Pic
