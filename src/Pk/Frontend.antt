-- ===== src/Pk/Frontend.antt =====
-- riscv-pk/pk/frontend.c, and the numbers and pointer tests of syscall.h. A call to the host is
-- the eight words of `magic_mem`. What the host does is not part of the repository: `Host` gives
-- its answer to a call, and the bytes that it writes, from all calls up to that one, newest first.
use boom_stop.Base.{ℕ, ◌+◌, Bool, List, ◌∷◌, leb, u64, neg, if◌then◌else◌}

pub record Request : Type 0 where
  pub number : ℕ
  pub a0 : ℕ
  pub a1 : ℕ
  pub a2 : ℕ
  pub a3 : ℕ
  pub a4 : ℕ
  pub a5 : ℕ
  pub a6 : ℕ

abbrev pub request : (number a0 a1 a2 a3 a4 a5 a6 : ℕ) → Request
request n a b c d e f g = record {
  number = n;
  a0 = a;
  a1 = b;
  a2 = c;
  a3 = d;
  a4 = e;
  a5 = f;
  a6 = g;
}

abbrev pub Calls : Type 0
Calls = List Request

pub record Host : Type 0 where
  pub answer : Calls → ℕ
  pub bytes : Calls → ℕ → ℕ

-- The answer is read back from `magic_mem[0]`.
unfoldable pub frontend_syscall : Host → Request → Calls → ℕ × Calls
frontend_syscall host r calls = (u64 (host.answer (r ∷ calls)), r ∷ calls)

-- A string in the memory of the program: where it stands, and `strlen` of it plus 1.
pub record CString : Type 0 where
  pub addr : ℕ
  pub size : ℕ

abbrev pub dram_base : ℕ
dram_base = 0x8000_0000

unfoldable pub va2pa : ℕ → ℕ → ℕ
va2pa first_free_paddr va = if leb dram_base va then va else u64 (va + first_free_paddr)

abbrev pub at_fdcwd : ℕ
at_fdcwd = neg 100

abbrev pub is_err_value : ℕ → Bool
is_err_value w = leb (neg 4096) w

abbrev pub ebadf : ℕ
ebadf = 9

abbrev pub enomem : ℕ
enomem = 12

abbrev pub eacces : ℕ
eacces = 13

abbrev pub einval : ℕ
einval = 22

abbrev pub enosys : ℕ
enosys = 38

abbrev pub sys_close_number : ℕ
sys_close_number = 57

abbrev pub sys_openat_number : ℕ
sys_openat_number = 56
