-- ===== src/Machine.antt =====
-- riscv-pk/machine: the firmware of machine mode.
pub mod Muldiv
pub mod Emulation
pub mod Fdt
pub mod Htif
pub mod Init
pub mod Trap
pub mod Misaligned
mod Tests
