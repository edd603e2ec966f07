-- ===== src/Ckpt.antt =====
-- ckpt_support/restoreCkpt/readckpt: the program that loads a checkpoint of another program and then
-- replays the system calls that were recorded for it. `Process` is the loaded program as the loader
-- sees it: `RunningInfo` (ckptinfo.h), which the loader keeps in a page of its own at
-- RunningInfoAddr and which is apart from `memory` here, the bytes of the program and of the record
-- of its calls, and the registers of the processor that have no number in the instruction set.
pub mod Takeover
pub mod Log
pub mod Answered
pub mod Replay
pub mod Stream
pub mod Load
pub mod Elf
pub mod Patch
pub mod Started
mod Tests
use boom_stop.Base.{ℕ, zero, suc, ◌+◌, ◌*◌, ◌/◌, ◌%◌, ◌^◌, fill}

-- The `len` bytes at an address, the lowest first, as a number.
unfoldable pub read_le : (memory : ℕ → ℕ) (addr len : ℕ) → ℕ
read_le memory addr zero = 0
read_le memory addr (suc len) = memory addr + 2 ^ 8 * read_le memory (addr + 1) len

-- A byte of a number.
abbrev pub le_byte : (val i : ℕ) → ℕ
le_byte val i = val / 2 ^ (8 * i) % 2 ^ 8

abbrev pub write_le : (addr len val : ℕ) → (ℕ → ℕ) → (ℕ → ℕ)
write_le addr len val memory = fill memory addr len (le_byte val)

pub record MemRangeInfo : Type 0 where
  pub addr : ℕ
  pub size : ℕ

-- `oldregs`, the registers of the loader, are not in the model.
pub record RunningInfo : Type 0 where
  pub exitpc : ℕ
  pub exit_cause : ℕ
  pub syscall_info_addr : ℕ
  pub nowcallnum : ℕ
  pub totalcallnum : ℕ
  pub intregs : ℕ → ℕ
  pub fpregs : ℕ → ℕ
  pub cycles : ℕ
  pub insts : ℕ
  pub lastcycles : ℕ
  pub lastinsts : ℕ
  pub startcycles : ℕ
  pub startinsts : ℕ

pub record Process : Type 0 where
  pub info : RunningInfo
  pub memory : ℕ → ℕ
  pub temp : ℕ → ℕ

abbrev pub store_int_reg_addr : ℕ
store_int_reg_addr = 0x150028

abbrev pub ecall_replace : ℕ
ecall_replace = 0x04018013

abbrev pub cause_exit_inst : ℕ
cause_exit_inst = 2

-- sizeof(SyscallInfo), and its fields, from the address of one.
abbrev pub size_of_syscall_info : ℕ
size_of_syscall_info = 40

abbrev pub info_pc : (memory : ℕ → ℕ) (sinfo : ℕ) → ℕ
info_pc memory sinfo = read_le memory sinfo 8

abbrev pub info_num : (memory : ℕ → ℕ) (sinfo : ℕ) → ℕ
info_num memory sinfo = read_le memory (sinfo + 8) 8

abbrev pub info_p0 : (memory : ℕ → ℕ) (sinfo : ℕ) → ℕ
info_p0 memory sinfo = read_le memory (sinfo + 16) 8

abbrev pub info_ret : (memory : ℕ → ℕ) (sinfo : ℕ) → ℕ
info_ret memory sinfo = read_le memory (sinfo + 24) 8

abbrev pub info_data_offset : (memory : ℕ → ℕ) (sinfo : ℕ) → ℕ
info_data_offset memory sinfo = read_le memory (sinfo + 32) 8

-- The address of the SyscallInfo of call `i`: (SyscallInfo *)(infoaddr + sysidxs[i] * 40).
abbrev pub sysidx : (memory : ℕ → ℕ) (syscall_info_addr i : ℕ) → ℕ
sysidx memory syscall_info_addr i = read_le memory (syscall_info_addr + 8 + 4 * i) 4

abbrev pub infoaddr : (syscall_info_addr totalcallnum : ℕ) → ℕ
infoaddr syscall_info_addr totalcallnum = syscall_info_addr + 8 + totalcallnum * 4

abbrev pub sinfo_at : (memory : ℕ → ℕ) (syscall_info_addr totalcallnum idx : ℕ) → ℕ
sinfo_at memory syscall_info_addr totalcallnum idx =
    infoaddr syscall_info_addr totalcallnum + idx * size_of_syscall_info
