-- ===== src/Pk/Syscall/Table.antt =====
-- `do_syscall` of syscall.c: the tables of system calls, and the call of an entry. What the calls
-- read of the program's memory is `Program`. The calls that end the program, or whose results are
-- structures of the C library (`fstat`, `fstatat`, `stat`, `lstat`, `uname`), are entries of the
-- tables and have no model here: `other` stands for what they do.
pub mod Lookup
use boom_stop.Base.{
  ℕ, zero, suc, ◌+◌, ◌-◌, Option, none, some, List, [], ◌∷◌, ltb, ◌==◌, if◌then◌else◌, u64, to_int,
  sub64,
}
use boom_stop.Base.Cmd.{Cmd, halt, pure}
use boom_stop.Pk.Frontend.{Host, CString, at_fdcwd}
use boom_stop.Pk.Mmap.State.{Kernel, on_io}
use boom_stop.Pk.Mmap.Map.{do_mmap, do_munmap, do_mremap}
use boom_stop.Pk.Mmap.Brk.{do_brk}
use boom_stop.Pk.Mmap.Protect.{do_mprotect}
use boom_stop.Pk.Syscall.Fd.{sys_openat, sys_open, sys_close}
use boom_stop.Pk.Syscall.Transfer.{
  IoVec, sys_read, sys_pread, sys_write, sys_ftruncate, sys_lseek, sys_fcntl, sys_dup, sys_writev,
}
use boom_stop.Pk.Syscall.Paths.{
  sys_renameat, sys_faccessat, sys_access, sys_linkat, sys_link, sys_unlinkat, sys_unlink,
  sys_mkdirat, sys_mkdir, sys_getcwd, sys_chdir,
}
use boom_stop.Pk.Syscall.Clock.{
  sys_time, sys_times, sys_gettimeofday, sys_clock_gettime, sys_rt_sigaction, sys_stub_success,
  sys_stub_nosys,
}

-- The functions of the tables.
pub data Sys : Type 0 where
  exit read pread write openat close fstat lseek fstatat linkat unlinkat mkdirat renameat getcwd :
      Sys
  brk uname getpid getuid mmap munmap mremap mprotect stub_nosys rt_sigaction gettimeofday : Sys
  times writev faccessat fcntl ftruncate getdents dup stub_success clock_gettime chdir : Sys
  open_file link unlink mkdir access stat lstat time : Sys

abbrev pub Row : Type 0
Row = ℕ × Sys

unfoldable pub syscall_table : List Row
syscall_table =
    (93, Sys.exit)
    ∷ (94, Sys.exit)
    ∷ (63, Sys.read)
    ∷ (67, Sys.pread)
    ∷ (64, Sys.write)
    ∷ (56, Sys.openat)
    ∷ (57, Sys.close)
    ∷ (80, Sys.fstat)
    ∷ (62, Sys.lseek)
    ∷ (79, Sys.fstatat)
    ∷ (37, Sys.linkat)
    ∷ (35, Sys.unlinkat)
    ∷ (34, Sys.mkdirat)
    ∷ (38, Sys.renameat)
    ∷ (17, Sys.getcwd)
    ∷ (214, Sys.brk)
    ∷ (160, Sys.uname)
    ∷ (172, Sys.getpid)
    ∷ (174, Sys.getuid)
    ∷ (175, Sys.getuid)
    ∷ (176, Sys.getuid)
    ∷ (177, Sys.getuid)
    ∷ (222, Sys.mmap)
    ∷ (215, Sys.munmap)
    ∷ (216, Sys.mremap)
    ∷ (226, Sys.mprotect)
    ∷ (261, Sys.stub_nosys)
    ∷ (134, Sys.rt_sigaction)
    ∷ (169, Sys.gettimeofday)
    ∷ (153, Sys.times)
    ∷ (66, Sys.writev)
    ∷ (48, Sys.faccessat)
    ∷ (25, Sys.fcntl)
    ∷ (46, Sys.ftruncate)
    ∷ (61, Sys.getdents)
    ∷ (23, Sys.dup)
    ∷ (78, Sys.stub_nosys)
    ∷ (135, Sys.stub_success)
    ∷ (29, Sys.stub_nosys)
    ∷ (113, Sys.clock_gettime)
    ∷ (165, Sys.stub_nosys)
    ∷ (163, Sys.stub_nosys)
    ∷ (164, Sys.stub_nosys)
    ∷ (49, Sys.chdir)
    ∷ (96, Sys.stub_nosys)
    ∷ (99, Sys.stub_nosys)
    ∷ (233, Sys.stub_nosys)
    ∷ []

-- The numbers less OLD_SYSCALL_THRESHOLD.
unfoldable pub old_syscall_table : List Row
old_syscall_table =
    (0, Sys.open_file)
    ∷ (1, Sys.link)
    ∷ (2, Sys.unlink)
    ∷ (6, Sys.mkdir)
    ∷ (9, Sys.access)
    ∷ (14, Sys.stat)
    ∷ (15, Sys.lstat)
    ∷ (38, Sys.time)
    ∷ []

-- The designated initialiser of an index.
unfoldable pub listed : {A : Type 0} → List (ℕ × A) → ℕ → Option A
listed [] n = none
listed ((i, f) ∷ rows) n = if i == n then some f else listed rows n

-- What is read at an index of an array of pointers: `outside` is a read out of bounds.
pub data Slot (A : Type 0) : Type 0 where
  null : Slot A
  entry : A → Slot A
  outside : Slot A

-- An index without an initialiser is `NULL`.
abbrev pub slot : {A : Type 0} → Option A → Slot A
slot none = null
slot (some f) = entry f

-- The size of an array with designated initialisers is the last index plus 1.
unfoldable pub array_size : {A : Type 0} → List (ℕ × A) → ℕ
array_size [] = 0
array_size ((i, f) ∷ rows) = let rest = array_size rows in if ltb rest (suc i) then suc i else rest

unfoldable pub row : {A : Type 0} → List (ℕ × A) → ℕ → Slot A
row rows n = if ltb n (array_size rows) then slot (listed rows n) else outside

abbrev pub old_syscall_threshold : ℕ
old_syscall_threshold = 1024

unfoldable pub find_syscall : ℕ → Slot Sys
find_syscall n =
    if ltb n (array_size syscall_table)
    then row syscall_table n
    else if ltb (sub64 n old_syscall_threshold) (array_size old_syscall_table)
    then row old_syscall_table (sub64 n old_syscall_threshold)
    else null

-- The string at an address, and the vectors of `writev`.
pub record Program : Type 0 where
  pub string : ℕ → CString
  pub vectors : (iov cnt : ℕ) → List IoVec

module _ (host : Host) (program : Program) (cycle : ℕ) (other : Sys → Cmd Kernel ℕ)
    (a0 a1 a2 a3 a4 a5 : ℕ) where
  open program use {string, vectors}

  -- The call `f(a0, a1, a2, a3, a4, a5, n)`, with the arguments that are `int`.
  unfoldable pub run_syscall : Sys → Cmd Kernel ℕ
  run_syscall Sys.read = sys_read host (to_int a0) a1 a2
  run_syscall Sys.pread = sys_pread host (to_int a0) a1 a2 a3
  run_syscall Sys.write = sys_write host (to_int a0) a1 a2
  run_syscall Sys.openat = on_io (sys_openat host (to_int a0) (string a1) (to_int a2) (to_int a3))
  run_syscall Sys.close = on_io (sys_close host (to_int a0))
  run_syscall Sys.lseek = sys_lseek host (to_int a0) a1 (to_int a2)
  run_syscall Sys.linkat =
      sys_linkat host (to_int a0) (string a1) (to_int a2) (string a3) (to_int a4)
  run_syscall Sys.unlinkat = sys_unlinkat host (to_int a0) (string a1) (to_int a2)
  run_syscall Sys.mkdirat = sys_mkdirat host (to_int a0) (string a1) (to_int a2)
  run_syscall Sys.renameat = sys_renameat host (to_int a0) (string a1) (to_int a2) (string a3)
  run_syscall Sys.getcwd = sys_getcwd host a0 a1
  run_syscall Sys.brk = do_brk host a0
  run_syscall Sys.getpid = pure 0
  run_syscall Sys.getuid = pure 0
  run_syscall Sys.mmap = do_mmap host a0 a1 (to_int a2) (to_int a3) (to_int a4) a5
  run_syscall Sys.munmap = do_munmap host a0 a1
  run_syscall Sys.mremap = do_mremap a0 a1 a2 (to_int a3)
  run_syscall Sys.mprotect = do_mprotect a0 a1 (to_int a2)
  run_syscall Sys.stub_nosys = sys_stub_nosys
  run_syscall Sys.rt_sigaction = sys_rt_sigaction host (to_int a0) a1 a2 a3
  run_syscall Sys.gettimeofday = sys_gettimeofday host cycle a0
  run_syscall Sys.times = sys_times host cycle a0
  run_syscall Sys.writev = sys_writev host (to_int a0) (vectors a1 (to_int a2)) 0
  run_syscall Sys.faccessat = sys_faccessat host (to_int a0) (string a1) (to_int a2)
  run_syscall Sys.fcntl = sys_fcntl host (to_int a0) (to_int a1) (to_int a2)
  run_syscall Sys.ftruncate = sys_ftruncate host (to_int a0) a1
  run_syscall Sys.getdents = pure 0
  run_syscall Sys.dup = sys_dup host (to_int a0)
  run_syscall Sys.stub_success = sys_stub_success
  run_syscall Sys.clock_gettime = sys_clock_gettime host cycle (to_int a0) a1
  run_syscall Sys.chdir = sys_chdir host (string a0)
  run_syscall Sys.open_file = on_io (sys_open host (string a0) (to_int a1) (to_int a2))
  run_syscall Sys.link = sys_link host (string a0) (string a1)
  run_syscall Sys.unlink = sys_unlink host (string a0)
  run_syscall Sys.mkdir = sys_mkdir host (string a0) (to_int a1)
  run_syscall Sys.access = sys_access host (string a0) (to_int a1)
  run_syscall Sys.time = sys_time host cycle a0
  run_syscall f = other f

  unfoldable pub do_syscall : (n : ℕ) → Cmd Kernel ℕ
  do_syscall n = elim (find_syscall n) [ null ↦ halt | entry f ↦ run_syscall f | outside ↦ halt ]
