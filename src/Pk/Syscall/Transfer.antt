-- ===== src/Pk/Syscall/Transfer.antt =====
-- The system calls of syscall.c on an open file.
pub mod Refs
use boom_stop.Base.{
  ℕ, List, [], ◌∷◌, ◌+◌, Option, none, some, ltb, ◌==◌, if◌then◌else◌, u64, neg, to_int, is_neg,
}
use boom_stop.Base.Cmd.{Cmd, ok, pure, ◌>>=◌, ◌>>◌}
use boom_stop.Pk.Frontend.{Host, request, ebadf}
use boom_stop.Pk.File.{Io, file_get, file_decref, file_dup}
use boom_stop.Pk.Mmap.State.{Kernel, on_io}
use boom_stop.Pk.Access.{
  file_read, file_pread_user, file_write, file_truncate, file_lseek, ask, kfd_at, pa_of,
}

-- Gives the reference back and returns `r`.
unfoldable pub put_file : Host → (f r : ℕ) → Cmd Kernel ℕ
put_file host f r = do on_io (file_decref host f); pure r

-- `r = -EBADF; f = file_get(fd); if (f) { r = body(f); file_decref(f); } return r;`
unfoldable pub with_file : Host → (fd : ℕ) → (ℕ → Cmd Kernel ℕ) → Cmd Kernel ℕ
with_file host fd body = do
  got ← on_io (file_get fd)
  elim got [ none ↦ pure (neg ebadf) | some f ↦ do put_file host f (← body f) ]

unfoldable pub sys_read : Host → (fd buf n : ℕ) → Cmd Kernel ℕ
sys_read host fd buf n = with_file host fd (λ f. file_read host f buf n)

unfoldable pub sys_pread : Host → (fd buf n offset : ℕ) → Cmd Kernel ℕ
sys_pread host fd buf n offset = with_file host fd (λ f. file_pread_user host f buf n offset)

unfoldable pub sys_write : Host → (fd buf n : ℕ) → Cmd Kernel ℕ
sys_write host fd buf n = with_file host fd (λ f. file_write host f buf n)

unfoldable pub sys_ftruncate : Host → (fd len : ℕ) → Cmd Kernel ℕ
sys_ftruncate host fd len =
    with_file host fd (λ f. do ret ← file_truncate host f len; pure (to_int ret))

unfoldable pub sys_lseek : Host → (fd ptr dir : ℕ) → Cmd Kernel ℕ
sys_lseek host fd ptr dir = with_file host fd (λ f. file_lseek host f ptr dir)

unfoldable pub sys_fcntl : Host → (fd cmd arg : ℕ) → Cmd Kernel ℕ
sys_fcntl host fd cmd arg =
    with_file host fd
      λ f. do ret ← ask host (λ k. request 25 (kfd_at k f) cmd arg 0 0 0 0); pure (to_int ret)

unfoldable pub sys_dup : Host → (fd : ℕ) → Cmd Kernel ℕ
sys_dup host fd = with_file host fd (λ f. on_io (file_dup f))

-- One vector of `sys_writev`: where the bytes stand, and how many.
pub record IoVec : Type 0 where
  pub base : ℕ
  pub len : ℕ

-- The loop of `sys_writev` over the vectors, which the program's memory holds.
unfoldable pub sys_writev : Host → (fd : ℕ) → List IoVec → (ret : ℕ) → Cmd Kernel ℕ
sys_writev host fd [] ret = pure ret
sys_writev host fd (v ∷ iov) ret = do
  r ← sys_write host fd v.base v.len
  if is_neg r then pure r else sys_writev host fd iov (u64 (ret + r))
