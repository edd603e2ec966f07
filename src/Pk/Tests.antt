-- ===== src/Pk/Tests.antt =====
-- Runs of the kernel's code at concrete states, and the theorems at them.
mod Space
mod Boot
mod Pages
use boom_stop.Base.{ℕ, ◌≡◌, refl, ◌≢◌, none, some, ◌∷◌, [], arith, neg, update, find_from}
use boom_stop.Base.Cmd.{Returns, returns, ok}
use boom_stop.Pk.Frontend.{Host, CString, at_fdcwd}
use boom_stop.Pk.File.{
  Io, max_fds, blank, file_init, file_get, file_get_free, file_dup, file_decref, file_openat,
  fd_close, openat_request,
}
use boom_stop.Pk.File.Count.{count-update, count-none}
use boom_stop.Pk.File.Refs.{Balanced, more, Fits, Dropped, file_decref-Dropped}
use boom_stop.Pk.File.Ops.{
  Got, file_get-Got, GotFree, file_get_free-GotFree, Dupped, file_dup-Dupped,
}
use boom_stop.Pk.File.Close.{Closed, fd_close-Closed}
use boom_stop.Pk.File.Open.{OpenResult, file_openat-OpenResult}
use boom_stop.Pk.Syscall.Fd.{sys_open, sys_close, at_kfd}
use boom_stop.Pk.Syscall.Fd.Leak.{open-close_leaks, at_kfd_leaks}

-- A host that answers 7 to every call.
abbrev seven : Host
seven = record { answer = λ _. 7; bytes = λ _ _. 0 }

-- Descriptor 0 refers to slot 5, whose file the host knows by 9.
abbrev one_open : Io
one_open = record {
  fds = update (λ _. none) 0 (some 5);
  files = update (λ _. record { kfd = neg 1; refcnt = 0 }) 5 (record { kfd = 9; refcnt = 2 });
  calls = [];
  first_free_paddr = 0;
}

abbrev none_held : ℕ → ℕ
none_held _ = 0

one_open-Balanced : Balanced none_held one_open
one_open-Balanced f =
    ground
      (arith, count-update (λ _. none) max_fds 0 f (some 5) (omega arith), count-none max_fds f)

one_open-Fits : Fits one_open
one_open-Fits f = ground arith

fd_close-Closed_example : Returns (Closed none_held 0 5 one_open) (fd_close seven 0 one_open)
fd_close-Closed_example =
    fd_close-Closed seven none_held 5 0 one_open one_open-Balanced one_open-Fits refl

-- The same, with one reference held by the code as well.
abbrev one_held : Io
one_held = record one_open {
  files = update (λ _. record { kfd = neg 1; refcnt = 0 }) 5 (record { kfd = 9; refcnt = 3 });
}

one_held-Balanced : Balanced (more none_held 5) one_held
one_held-Balanced f =
    ground
      (arith, count-update (λ _. none) max_fds 0 f (some 5) (omega arith), count-none max_fds f)

file_decref-Dropped_example :
    Returns (λ _ io'. Dropped (more none_held 5) 5 one_held io') (file_decref seven 5 one_held)
file_decref-Dropped_example =
    file_decref-Dropped seven (more none_held 5) 5 one_held one_held-Balanced (omega arith)
      (λ f. ground arith)

file_dup-Dupped_example : Returns (Dupped (more none_held 5) 5 one_held) (file_dup 5 one_held)
file_dup-Dupped_example =
    file_dup-Dupped (more none_held 5) 5 one_held one_held-Balanced (omega arith)
      (λ f. ground arith)

abbrev name : CString
name = record { addr = 0x1000; size = 6 }

file_openat-OpenResult_example :
    Returns
      (OpenResult seven none_held one_open at_fdcwd name 0 0)
      (file_openat seven at_fdcwd name 0 0 one_open)
file_openat-OpenResult_example =
    file_openat-OpenResult seven none_held one_open at_fdcwd name 0 0 one_open-Balanced
      one_open-Fits

at_kfd_leaks_example :
    Returns
      (λ kfd io'. Balanced (more none_held 5) io' × (io'.fds ≡ one_open.fds) × (kfd ≡ 9))
      (at_kfd 0 one_open)
at_kfd_leaks_example =
    at_kfd_leaks none_held 0 one_open one_open-Balanced one_open-Fits (λ e. omega arith)

-- What `sys_open` leaves of `one_open`.
abbrev reopened : Io
reopened = record {
  fds = update one_open.fds 1 (some 0);
  files =
      update
        (update (update one_open.files 0 (record { kfd = neg 1; refcnt = 2 })) 0
          (record { kfd = 7; refcnt = 2 }))
        0 (record { kfd = 7; refcnt = 3 });
  calls = openat_request one_open at_fdcwd name 0 0 ∷ [];
  first_free_paddr = 0;
}

sys_open_runs : sys_open seven name 0 0 one_open ≡ ok 1 reopened
unfolding sys_open find_from
sys_open_runs = refl

open-close_leaks_example :
    (f : ℕ) × ((one_open.files f).refcnt ≡ 0)
    × Returns
        (λ r io2.
          (r ≡ 0) × ((io2.files f).refcnt ≢ 0) × (io2.calls ≡ reopened.calls) × (io2.fds 1 ≡ none))
        (sys_close seven 1 reopened)
open-close_leaks_example =
    open-close_leaks seven none_held one_open reopened name 0 0 1 (λ calls h. cc) one_open-Balanced
      one_open-Fits sys_open_runs (omega arith) (λ f. ground arith)

-- The three standard descriptors.
file_init_runs :
    Returns
      (λ _ io.
        (io.fds 0 ≡ some 0) × (io.fds 2 ≡ some 2) × (io.fds 3 ≡ none) × ((io.files 2).kfd ≡ 2))
      (file_init blank)
unfolding file_init find_from
file_init_runs = returns (refl, refl, refl, refl)
