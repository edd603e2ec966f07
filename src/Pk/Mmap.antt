-- ===== src/Pk/Mmap.antt =====
-- riscv-pk/pk/mmap.c: the address space of the program. `State` has the data, the other modules
-- the functions, each with the modules below it for what is proved of them.
pub mod State
pub mod Pages
pub mod Walk
pub mod Prot
pub mod Fault
pub mod Map
pub mod Brk
pub mod Protect
pub mod Init
