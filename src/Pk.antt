-- ===== src/Pk.antt =====
-- riscv-pk/pk: the proxy kernel.
pub mod Frontend
pub mod File
pub mod Mmap
pub mod Access
pub mod Syscall
pub mod Trap
pub mod Elf
pub mod Start
mod Tests
