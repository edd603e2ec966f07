-- ===== src/Pk/File.antt =====
-- riscv-pk/pk/file.c: the table of open files with reference counts, and the table of file
-- descriptors. A `file_t*` is the index of a slot of `files`, and `NULL` is `none`. One hart runs
-- the kernel (pk.c stalls the others), so an atomic operation is the operation itself, and a
-- compare-and-swap on a value just read succeeds.
pub mod Refs
pub mod Close
pub mod Count
pub mod Open
pub mod Ops
use boom_stop.Base.{
  ℕ, zero, suc, ◌+◌, ◌-◌, ◌^◌, ◌%◌, Bool, true, false, ◌||◌, Option, none, some, ltb, leb, ◌==◌,
  if◌then◌else◌, u32, to_int, neg, is_neg, update, find_from,
}
use boom_stop.Base.Cmd.{Cmd, Run, ok, pure, halt, kassert, modify, ◌>>=◌, ◌>>◌}
use boom_stop.Pk.Frontend.{
  Request, request, Calls, Host, CString, frontend_syscall, va2pa, at_fdcwd, sys_close_number,
  sys_openat_number, enomem,
}

pub record File : Type 0 where
  pub kfd : ℕ
  pub refcnt : ℕ

pub record Io : Type 0 where
  pub fds : ℕ → Option ℕ
  pub files : ℕ → File
  pub calls : Calls
  pub first_free_paddr : ℕ

abbrev pub max_fds : ℕ
max_fds = 128

abbrev pub max_files : ℕ
max_files = 128

-- The tables before `file_init`.
abbrev pub blank : Io
blank = record {
  fds = λ _. none;
  files = λ _. record { kfd = neg 1; refcnt = 0 };
  calls = mathlib.Core.List.List.[];
  first_free_paddr = 0;
}

abbrev pub set_file : ℕ → File → Io → Io
set_file f v io = record io { files = update io.files f v }

abbrev pub set_refcnt : ℕ → ℕ → Io → Io
set_refcnt f n io = set_file f (record (io.files f) { refcnt = n }) io

abbrev pub set_kfd : ℕ → ℕ → Io → Io
set_kfd f k io = set_file f (record (io.files f) { kfd = k }) io

abbrev pub set_fd : ℕ → Option ℕ → Io → Io
set_fd i v io = record io { fds = update io.fds i v }

abbrev pub call : Host → Request → Cmd Io ℕ
call host r io =
    let (ret, calls) = frontend_syscall host r io.calls in ok ret (record io { calls = calls })

unfoldable pub file_incref : ℕ → Cmd Io (Unit {0})
file_incref f io =
    let prev = (io.files f).refcnt in kassert (ltb 0 prev) (set_refcnt f (u32 (prev + 1)) io)

abbrev pub close_request : ℕ → Request
close_request kfd = request sys_close_number kfd 0 0 0 0 0 0

unfoldable pub file_decref : Host → ℕ → Cmd Io (Unit {0})
unfolding frontend_syscall
file_decref host f io =
    let prev = (io.files f).refcnt in
    let down = set_refcnt f (u32 (prev + 2 ^ 32 - 1)) io in
    if prev == 2
    then (let kfd = (down.files f).kfd in
        (do _ ← call host (close_request kfd); pure tt) (set_refcnt f 0 down))
    else ok tt down

abbrev pub is_free : Io → ℕ → Bool
is_free io f = (io.files f).refcnt == 0

unfoldable pub file_get_free : Cmd Io (Option ℕ)
file_get_free io = elim (find_from (is_free io) max_files 0) [
  | none ↦ ok none io
  | some f ↦ ok (some f) (set_refcnt f 2 io)
]

abbrev pub is_none : Option ℕ → Bool
is_none none = true
is_none (some _) = false

abbrev pub is_unused : Io → ℕ → Bool
is_unused io i = is_none (io.fds i)

unfoldable pub file_dup : ℕ → Cmd Io ℕ
unfolding file_incref
file_dup f io = elim (find_from (is_unused io) max_fds 0) [
  | none ↦ ok (neg 1) io
  | some i ↦ (do file_incref f; pure i) (set_fd i (some f) io)
]

-- The body of the loop of `file_init`. A write through `NULL` is a fault of the kernel.
init_one : ℕ → Cmd Io (Unit {0})
unfolding file_get_free file_dup
init_one i = do
  slot ← file_get_free
  elim slot [ none ↦ halt | some f ↦ (do modify (set_kfd f i); _ ← file_dup f; pure tt) ]

unfoldable pub file_init : Cmd Io (Unit {0})
unfolding init_one
file_init = do init_one 0; init_one 1; init_one 2

unfoldable pub file_get : ℕ → Cmd Io (Option ℕ)
file_get fd io = if is_neg fd || leb max_fds fd then ok none io else elim (io.fds fd) [
  | none ↦ ok none io
  | some f ↦
      let old_cnt = (io.files f).refcnt in
      if old_cnt == 0 then ok none io else ok (some f) (set_refcnt f (u32 (old_cnt + 1)) io)
]

-- What `file_openat` returns: a slot, or an error number in a pointer.
pub data Opened : Type 0 where
  opened : ℕ → Opened
  failed : ℕ → Opened

abbrev pub openat_request : Io → (dirfd : ℕ) → CString → (flags mode : ℕ) → Request
openat_request io dirfd fn flags mode =
    request sys_openat_number dirfd (va2pa io.first_free_paddr fn.addr) fn.size flags mode 0 0

-- The end of `file_openat`, on the answer of the host.
openat_done : Host → ℕ → ℕ → Cmd Io Opened
unfolding file_decref
openat_done host f ret =
    if is_neg ret
    then (do file_decref host f; pure (failed ret))
    else (do modify (set_kfd f (to_int ret)); pure (opened f))

unfoldable pub file_openat : Host → (dirfd : ℕ) → CString → (flags mode : ℕ) → Cmd Io Opened
unfolding file_get_free frontend_syscall va2pa openat_done
file_openat host dirfd fn flags mode = do
  slot ← file_get_free
  elim slot [
    | none ↦ pure (failed (neg enomem))
    | some f ↦
        λ io. (do openat_done host f (← call host (openat_request io dirfd fn flags mode))) io
  ]

unfoldable pub file_open : Host → CString → (flags mode : ℕ) → Cmd Io Opened
unfolding file_openat
file_open host = file_openat host at_fdcwd

abbrev pub same_file : Option ℕ → ℕ → Bool
same_file none f = false
same_file (some g) f = g == f

-- The end of `fd_close`: the reference just taken is dropped, and the one of the descriptor too if
-- the swap took it out.
close_done : Host → ℕ → Bool → Cmd Io ℕ
unfolding file_decref
close_done host f true = do file_decref host f; file_decref host f; pure 0
close_done host f false = do file_decref host f; pure (neg 1)

unfoldable pub fd_close : Host → ℕ → Cmd Io ℕ
unfolding file_get close_done
fd_close host fd = do
  got ← file_get fd
  elim got [
    | none ↦ pure (neg 1)
    | some f ↦ λ io.
        (let same = same_file (io.fds fd) f in
          close_done host f same (if same then set_fd fd none io else io))
  ]
