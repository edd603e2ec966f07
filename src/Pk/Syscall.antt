-- ===== src/Pk/Syscall.antt =====
-- riscv-pk/pk/syscall.c: the system calls of the program.
pub mod Fd
pub mod Transfer
pub mod Paths
pub mod Clock
pub mod Table
