-- ===== src/Pk/Syscall/Paths.antt =====
-- The system calls of syscall.c on paths: a descriptor of the host for each directory, and a call
-- with the physical address and the size of each name.
use boom_stop.Base.{ℕ, ◌||◌, ◌==◌, if◌then◌else◌, neg, to_int}
use boom_stop.Base.Cmd.{Cmd, pure, ◌>>=◌, ◌>>◌}
use boom_stop.Pk.Frontend.{Host, CString, request, at_fdcwd, ebadf}
use boom_stop.Pk.Mmap.State.{Kernel, on_io}
use boom_stop.Pk.Mmap.Prot.{prot_write}
use boom_stop.Pk.Access.{ask, ask_into, pa_of, populate_mapping}
use boom_stop.Pk.Syscall.Fd.{at_kfd}

-- The common shape of the calls on one directory: -EBADF without asking the host, or its answer.
unfoldable pub at_dir : (dirfd : ℕ) → (ℕ → Cmd Kernel ℕ) → Cmd Kernel ℕ
at_dir dirfd body = do
  kfd ← on_io (at_kfd dirfd)
  if kfd == neg 1 then pure (neg ebadf) else body kfd

-- And of those on two: both are looked up first.
unfoldable pub at_dirs : (old_dirfd new_dirfd : ℕ) → (ℕ → ℕ → Cmd Kernel ℕ) → Cmd Kernel ℕ
at_dirs old_dirfd new_dirfd body = do
  old_kfd ← on_io (at_kfd old_dirfd)
  new_kfd ← on_io (at_kfd new_dirfd)
  if (old_kfd == neg 1) || (new_kfd == neg 1) then pure (neg ebadf) else body old_kfd new_kfd

unfoldable pub sys_renameat :
    Host → (old_fd : ℕ) (old_path : CString) (new_fd : ℕ) (new_path : CString) → Cmd Kernel ℕ
sys_renameat host old_fd old_path new_fd new_path = at_dirs old_fd new_fd λ old_kfd new_kfd. do
  ret ← ask host λ k.
      request 38 old_kfd (pa_of k old_path.addr) old_path.size new_kfd (pa_of k new_path.addr)
        new_path.size 0
  pure (to_int ret)

unfoldable pub sys_faccessat : Host → (dirfd : ℕ) (name : CString) (mode : ℕ) → Cmd Kernel ℕ
sys_faccessat host dirfd name mode =
    at_dir dirfd λ kfd. ask host (λ k. request 48 kfd (pa_of k name.addr) name.size mode 0 0 0)

unfoldable pub sys_access : Host → (name : CString) (mode : ℕ) → Cmd Kernel ℕ
sys_access host = sys_faccessat host at_fdcwd

unfoldable pub sys_linkat :
    Host
    → (old_dirfd : ℕ) (old_name : CString) (new_dirfd : ℕ) (new_name : CString) (flags : ℕ)
    → Cmd Kernel ℕ
sys_linkat host old_dirfd old_name new_dirfd new_name flags =
    at_dirs old_dirfd new_dirfd λ old_kfd new_kfd. ask host λ k.
      request 37 old_kfd (pa_of k old_name.addr) old_name.size new_kfd (pa_of k new_name.addr)
        new_name.size flags

unfoldable pub sys_link : Host → (old_name new_name : CString) → Cmd Kernel ℕ
sys_link host old_name new_name = sys_linkat host at_fdcwd old_name at_fdcwd new_name 0

unfoldable pub sys_unlinkat : Host → (dirfd : ℕ) (name : CString) (flags : ℕ) → Cmd Kernel ℕ
sys_unlinkat host dirfd name flags =
    at_dir dirfd λ kfd. ask host (λ k. request 35 kfd (pa_of k name.addr) name.size flags 0 0 0)

unfoldable pub sys_unlink : Host → (name : CString) → Cmd Kernel ℕ
sys_unlink host name = sys_unlinkat host at_fdcwd name 0

unfoldable pub sys_mkdirat : Host → (dirfd : ℕ) (name : CString) (mode : ℕ) → Cmd Kernel ℕ
sys_mkdirat host dirfd name mode =
    at_dir dirfd λ kfd. ask host (λ k. request 34 kfd (pa_of k name.addr) name.size mode 0 0 0)

unfoldable pub sys_mkdir : Host → (name : CString) (mode : ℕ) → Cmd Kernel ℕ
sys_mkdir host = sys_mkdirat host at_fdcwd

unfoldable pub sys_getcwd : Host → (buf size : ℕ) → Cmd Kernel ℕ
sys_getcwd host buf size = do
  populate_mapping host buf size prot_write
  ask_into host buf size (λ k. request 17 (pa_of k buf) size 0 0 0 0 0)

-- The size of the name is not passed.
unfoldable pub sys_chdir : Host → (path : CString) → Cmd Kernel ℕ
sys_chdir host path = do
  ret ← ask host (λ k. request 49 (pa_of k path.addr) 0 0 0 0 0 0)
  pure (to_int ret)
