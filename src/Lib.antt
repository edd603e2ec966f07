-- ===== src/Lib.antt =====
-- The proxy kernel of riscv-pk: the files that a program opens, its address space, its system calls
-- and traps, how it is loaded and started, the string functions that these use, and of its firmware
-- the scan of the device tree, the requests and traps of machine mode, the interface to the host and
-- the emulation of instructions; and the loader of checkpoints, which starts a program in the middle
-- of a run and replays its system calls. A C function of n parameters is a function of the same
-- name, without leading underscores, whose state is explicit: `Cmd S A` of Base/Cmd takes a state
-- and returns a value and a new one, or is a `panic`, which stands for `panic`, a failed `kassert`, a
-- write through NULL and a loop or a wait that never ends. Words are numbers below 2 ^ 64 with their
-- wrap-around written out; an `int` in a register is sign-extended (Base/Words).
--
-- Where the code is:
--   Base            tests, words, arrays as functions, binary digits, the monad
--   Pk/Frontend     riscv-pk/pk/frontend.c, frontend.h and the numbers of syscall.h
--   Pk/File         riscv-pk/pk/file.c: `Io` is `files` and `fds`; the reference counts are the code's
--   Pk/Mmap         riscv-pk/pk/mmap.c: State (the variables, `current` of boot.h), Pages
--                   (`__page_alloc`, `__page_alloc1`, `__vmr_alloc`, `__vmr_decref`), Walk (`__walk`,
--                   `__walk_create`), Prot, Fault (`__handle_page_fault`), Map (`__do_munmap`,
--                   `__vm_alloc`, `__do_mmap`, `do_mmap`), Brk (`__do_brk`), Protect (`do_mprotect`),
--                   Init (`pk_vm_init`)
--   Pk/Access       `populate_mapping` of mmap.c and the transfers of file.c, `file_read` to
--                   `file_lseek`
--   Pk/Syscall      riscv-pk/pk/syscall.c: Fd (`sys_openat` to `sys_close`), Transfer, Paths, Clock,
--                   and Table with both tables and `do_syscall`
--   Pk/Trap         riscv-pk/pk/handlers.c
--   Pk/Elf          riscv-pk/pk/elf.c
--   Pk/Start        riscv-pk/pk/pk.c
--   Util            riscv-pk/util/string.c, with Text for strings, and Print for snprintf.c
--   Ckpt            ckpt_support/restoreCkpt/readckpt: the structs of ckptinfo.h, Elf (elf_load.cpp),
--                   Stream (the calls of the C library) and Load (ckpt_load.cpp), Takeover
--                   (takeover_syscall.cpp), Started (readckpt.cpp); Log says what a record of calls is,
--                   and Patch, Answered and Replay hold the theorems on it
--   Machine/Emulation
--                   riscv-pk/machine/emulation.c: `illegal_insn_trap`, `emulate_system_opcode`
--   Machine/Htif    riscv-pk/machine/htif.c, with `htif_console_putchar` and `htif_syscall`
--   Machine/Init    riscv-pk/machine/minit.c: the start of a hart, to `enter_supervisor_mode`
--   Machine/Muldiv  riscv-pk/machine/muldiv_emulation.c
--   Machine/Misaligned
--                   riscv-pk/machine/misaligned_ldst.c
--   Machine/Trap    riscv-pk/machine/mtrap.c: `mcall_trap`, `send_ipi_many`, and in Fault
--                   `redirect_trap`, `trap_from_machine_mode`
--   Machine/Fdt     riscv-pk/machine/fdt.c: `fdt_scan`, and in children Fields, the queries and
--                   filters: Memory (`query_mem`), Harts (`query_harts`), Interrupts (`query_clint`,
--                   `query_plic`, `filter_plic`), Filters (`filter_compat`, `query_chosen`,
--                   `filter_harts`); Layout writes down a tree in memory and the calls for it
-- The children of these modules hold the theorems, and the modules named Tests hold each theorem at a
-- concrete state.
--
-- How the parts interact: a trap (`handle_trap`) is a page fault, which `handle_page_fault` answers
-- from the table of regions, or a system call, which `do_syscall` finds in its tables. The calls on
-- descriptors hold a reference to a file, `file_get`, while they ask the host, and give it back,
-- `file_decref`. Regions hold references too. The functions of file.c know nothing of the address
-- space, so they have a smaller state, `Io`, and `on_io` runs them on the `Kernel`. The firmware
-- runs before the kernel: its queries and filters of the device tree are records of callbacks over
-- their own state, which `fdt_scan` calls on its way. An instruction that traps as illegal goes by a
-- table to Muldiv, to the control registers, or on to the supervisor (`redirect_trap`). Machine/Init
-- takes the queries of the device tree as parameters, since each has a state of its own.
--
-- The loader of checkpoints is a program of its own: `main` loads the code (`loadelf`), then memory,
-- registers and the record of the calls (`read_ckptinfo`), puts a jump to itself in place of each
-- recorded call and starts the program. From then on `takeover_syscall` answers each call from the
-- record. The record lies in the memory of the program, so that the theorems say which parts of
-- memory have to be apart; RunningInfo lies in a page of its own and is a record of the model.
--
-- The host behind the front end is not part of the repository: `Host` gives its answer, and the bytes
-- that it writes, to each call from all calls before it. Theorems name what they need of it, such as
-- that a failure is an error number. What the compiler's library gives for a division by 0 is a
-- parameter too, and so are what the clocks read, what a register for floating point keeps of a
-- single-precision number, the functions of fp_emulation.c, and, for the loader of checkpoints, where
-- the operating system maps memory and what variables hold that are read into.
--
-- Bounds and fuel: there are 128 files, 128 descriptors and 10240 regions (409600 bytes of 40
-- each). A search over a table is a recursion on its size. The creation of a page table entry
-- starts over after each of the two tables that it may have to make, so that 3 attempts are enough
-- (Pk/Mmap/Walk/Create). A scan of a device tree has 2 ^ 64 tokens, and one for each token is
-- enough. `__vm_alloc` has 2 ^ 52 + 1 rounds, one for each page of 64 bits. A loop on a string
-- takes its fuel from the caller, and the theorems say how much is enough; the digits of a `long`
-- need 19 of 20 rounds.
--
-- One hart runs the kernel: `boot_other_hart` stalls the others. So a spin lock is a flag, atomic
-- operations are plain ones, and fences and TLB flushes have no effect on the state. Printing is
-- left out. A frame of the program stands at the address plus `first_free_paddr`, as in the code,
-- and the kernel's page tables are words by address. The table of regions lies in the same pages: a
-- new page clears the regions in it, and theorems on page tables ask that it lies apart. In the firmware, what the other harts do while
-- one waits for them is a parameter of Machine/Trap, and so is the driver of the console; in
-- Machine/Htif the host is one, with a patience that the fuel of a wait exceeds by two. A wait has
-- the rounds that its fuel says.
--
-- Not modelled: `sys_exit`, which ends the program, and `fstat`, `fstatat`, `stat`, `lstat` and
-- `uname`, whose results are structures of the C library; they are entries of the tables. Of
-- fdt.c, `fdt_print`, which prints, of mtrap.c what `poweroff` does, of htif.c `query_htif` and
-- the loop of `htif_poweroff`, of minit.c `prci_test`, which is not called, and where the stack
-- is kept. The rest of riscv-pk/machine (floating point, serial ports, assembly), riscv-pk/bbl,
-- of ckpt_support the counters of ctrl.h and the assembly, example and test, the hardware in
-- boom_scala, the scripts in log_process, the changed Linux files in linux_arch_riscv, and
-- riscv-pk/softfloat, a copy of another project's library.
mod Base
pub mod Ckpt
pub mod Pk
pub mod Util
pub mod Machine
