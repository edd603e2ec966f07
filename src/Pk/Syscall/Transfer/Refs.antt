-- ===== src/Pk/Syscall/Transfer/Refs.antt =====
-- The system calls on an open file take a reference and give it back, and a call that is passed on
-- reaches the host once, with the host's descriptor of the file.
use boom_stop.Base.{ℕ, ◌<◌, ◌≡◌, refl, some, ◌∷◌, arith, ap, ◌∙◌, subst, u64, to_int, ==_self}
use boom_stop.Base.Cmd.{Cmd, Returns, returns, Returns-and_then, Returns-mono}
use boom_stop.Pk.Frontend.{Host, Request, request, frontend_syscall}
use boom_stop.Pk.File.{max_fds, file_get, file_decref}
use boom_stop.Pk.File.Count.{count, refers, refers-le-count}
use boom_stop.Pk.File.Refs.{Balanced, more, Fits, InRange, file_decref-Dropped}
use boom_stop.Pk.File.Ops.{lookup_fd, take_ref, file_get-Got}
use boom_stop.Pk.File.Close.{fewer-more}
use boom_stop.Pk.Mmap.State.{Kernel, on_io, on_io-Lifted, lifted}
use boom_stop.Pk.Access.{file_lseek}
use boom_stop.Pk.Syscall.Transfer.{with_file, put_file, sys_lseek, sys_fcntl}

-- What one call passed on to the host leaves: the call at the end of the log, and `answer`.
pub record Passed (held : ℕ → ℕ) (r : Request) (answer : ℕ) (k : Kernel) (ret : ℕ) (k' : Kernel)
    : Type 0 where
  pub result : ret ≡ answer
  pub calls : k'.io.calls ≡ r ∷ k.io.calls
  pub balanced : Balanced held k'.io
  pub same_fds : k'.io.fds ≡ k.io.fds

-- What the body of such a call does: it makes the call, and leaves the tables of file.c alone.
pub record Asks (r : Request) (answer : ℕ) (k : Kernel) (ret : ℕ) (k' : Kernel) : Type 0 where
  pub result : ret ≡ answer
  pub calls : k'.io.calls ≡ r ∷ k.io.calls
  pub same_files : k'.io.files ≡ k.io.files
  pub same_fds : k'.io.fds ≡ k.io.fds

module _ (host : Host) (held : ℕ → ℕ) (fd f : ℕ) where
  -- The reference of the call itself is not the last: the descriptor holds one too.
  put_file_lem :
      (ret : ℕ) (k : Kernel)
      → fd < max_fds
      → k.io.fds fd ≡ some f
      → Balanced (more held f) k.io
      → InRange k.io
      → Returns
          (λ r k'.
            (r ≡ ret) × Balanced held k'.io × (k'.io.calls ≡ k.io.calls) × (k'.io.fds ≡ k.io.fds))
          (put_file host f ret k)
  unfolding put_file
  put_file_lem ret k below here b fits =
      let one : refers (k.io.fds fd) f ≡ 1 = rw here (rw (==_self f)) in
      Returns-and_then
        (on_io-Lifted (file_decref host f) k
          (file_decref-Dropped host (more held f) f k.io b (ground arith) fits))
        λ _ k'. elim [
          | lifted io d e ↦ rw e (
              returns (
                refl,
                subst (λ h. Balanced h io) (fewer-more held f) d.balanced,
                ground (arith, d.closes, one, refers-le-count k.io.fds max_fds fd f below),
                d.same_fds,
              ))
        ]

  module _ (k : Kernel) (body : ℕ → Cmd Kernel ℕ) (r : Request) (answer : ℕ) where
    with_file-Passed :
        Balanced held k.io
        → Fits k.io
        → lookup_fd k.io fd ≡ some f
        → ((k1 : Kernel)
            → k1.io.calls ≡ k.io.calls
            → (k1.io.files f).kfd ≡ (k.io.files f).kfd
            → Returns (Asks r answer k1) (body f k1))
        → Returns (Passed held r answer k) (with_file host fd body k)
    unfolding with_file
    with_file-Passed b fits e asks =
        Returns-and_then (on_io-Lifted (file_get fd) k (file_get-Got held fd k.io b fits)) λ got k1.
          elim [
            | lifted io g same ↦
                let q : got ≡ some f = g.result ∙ e in
                let b1 = subst (λ x. Balanced (take_ref x held) io) q g.balanced in
                let below : fd < max_fds = ground arith in
                let here : k.io.fds fd ≡ some f = ground arith in
                rw (q, same)
                  (Returns-and_then (asks (record k { io = io }) g.same_calls (g.same_kfds f))
                    λ ret k2 a.
                      Returns-mono
                        (put_file_lem ret k2 below (ap (λ x. x fd) (a.same_fds ∙ g.same_fds) ∙ here)
                          (λ h. ground (
                            arith,
                            b1 h,
                            ap (λ x. x h) a.same_files,
                            ap (λ x. count x max_fds h) a.same_fds,
                          ))
                          (λ h. ground (arith, g.in_range h, ap (λ x. x h) a.same_files)))
                        λ ret2 k3 (e3, b3, c3, d3). record {
                          result = e3 ∙ a.result;
                          calls = c3 ∙ a.calls ∙ ap (λ x. r ∷ x) g.same_calls;
                          balanced = b3;
                          same_fds = d3 ∙ a.same_fds ∙ g.same_fds;
                        })
          ]

-- With counts that balance and fit, `sys_lseek` of an open descriptor makes exactly one call to the
-- host, `lseek` with the host's descriptor of that file and the arguments, returns its answer, and
-- leaves the descriptors and the balance as they were.
sys_lseek-Passed :
    (host : Host) (held : ℕ → ℕ) (fd f ptr dir : ℕ) (k : Kernel)
    → Balanced held k.io
    → Fits k.io
    → lookup_fd k.io fd ≡ some f
    → let r = request 62 (k.io.files f).kfd ptr dir 0 0 0 0 in
      Returns (Passed held r (u64 (host.answer (r ∷ k.io.calls))) k) (sys_lseek host fd ptr dir k)
unfolding sys_lseek file_lseek on_io frontend_syscall
sys_lseek-Passed host held fd f ptr dir k b fits e =
    with_file-Passed host held fd f k _ _ _ b fits e λ k1 c kfd.
      rw (c, kfd)
        (returns (record { result = refl; calls = refl; same_files = refl; same_fds = refl }))

-- With counts that balance and fit, `sys_fcntl` of an open descriptor makes exactly one call to the
-- host, `fcntl` with the host's descriptor of that file and the arguments, returns its answer cut to
-- an `int`, and leaves the descriptors and the balance as they were.
sys_fcntl-Passed :
    (host : Host) (held : ℕ → ℕ) (fd f cmd arg : ℕ) (k : Kernel)
    → Balanced held k.io
    → Fits k.io
    → lookup_fd k.io fd ≡ some f
    → let r = request 25 (k.io.files f).kfd cmd arg 0 0 0 0 in
      Returns
        (Passed held r (to_int (u64 (host.answer (r ∷ k.io.calls)))) k)
        (sys_fcntl host fd cmd arg k)
unfolding sys_fcntl on_io frontend_syscall
sys_fcntl-Passed host held fd f cmd arg k b fits e =
    with_file-Passed host held fd f k _ _ _ b fits e λ k1 c kfd.
      rw (c, kfd)
        (returns (record { result = refl; calls = refl; same_files = refl; same_fds = refl }))
