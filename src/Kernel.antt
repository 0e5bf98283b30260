-- ===== src/Kernel.antt =====
-- The routines of kernel/.
pub mod Mem
pub mod Decimal
pub mod Print
pub mod Debug
pub mod Elf
pub mod Multiboot
pub mod Paging
pub mod Interrupts
pub mod Str
pub mod Start
