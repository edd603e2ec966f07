-- ===== src/Pk/Syscall/Fd.antt =====
-- The system calls of syscall.c that work on the descriptor table alone. An `int` result is kept
-- sign-extended, and a negative result stands for an error.
pub mod Leak
use boom_stop.Base.{ℕ, Option, none, some, ◌==◌, if◌then◌else◌, neg, to_int, is_neg}
use boom_stop.Base.Cmd.{Cmd, ok, pure, halt, ◌>>=◌, ◌>>◌}
use boom_stop.Pk.Frontend.{Host, CString, at_fdcwd, is_err_value, ebadf, enomem}
use boom_stop.Pk.File.{
  Io, Opened, opened, failed, file_get, file_decref, file_dup, file_openat, fd_close,
}

-- The reference that `file_get` takes is not given back.
unfoldable pub at_kfd : ℕ → Cmd Io ℕ
unfolding file_get
at_kfd dirfd = if dirfd == at_fdcwd then pure at_fdcwd else do
  dir ← file_get dirfd
  elim dir [ none ↦ pure (neg 1) | some f ↦ λ io. ok (io.files f).kfd io ]

-- The end of `sys_openat`, on what `file_openat` returned. A pointer that is no slot and no error
-- is followed to a fault of the kernel.
openat_fd : Host → Opened → Cmd Io ℕ
unfolding file_dup file_decref
openat_fd host (failed r) = if is_err_value r then pure (to_int r) else halt
openat_fd host (opened f) = do
  fd ← file_dup f
  if is_neg fd then (do file_decref host f; pure (neg enomem)) else pure fd

unfoldable pub sys_openat : Host → ℕ → CString → (flags mode : ℕ) → Cmd Io ℕ
unfolding at_kfd file_openat openat_fd
sys_openat host dirfd name flags mode = do
  kfd ← at_kfd dirfd
  if kfd == neg 1
      then pure (neg ebadf)
      else (do openat_fd host (← file_openat host kfd name flags mode))

unfoldable pub sys_open : Host → CString → (flags mode : ℕ) → Cmd Io ℕ
unfolding sys_openat
sys_open host = sys_openat host at_fdcwd

unfoldable pub sys_close : Host → ℕ → Cmd Io ℕ
unfolding fd_close
sys_close host fd = do ret ← fd_close host fd; if is_neg ret then pure (neg ebadf) else pure ret
