-- ===== src/Pk/Syscall/Fd/Leak.antt =====
-- What `sys_open` of syscall.c leaves, and what `sys_close` makes of it. The reference that
-- `file_openat` hands to its caller is kept by no one and never given back.
use boom_stop.Base.{
  ℕ, ◌<◌, ◌^◌, ◌≡◌, refl, sym, subst, ◌≢◌, inl, inr, true, false, Option, none, some, arith, ◌==◌,
  if◌then◌else◌, update, is_neg, neg, to_int, u64, ap, ◌∙◌, ==_self,
}
use boom_stop.Base.Cmd.{
  Returns, returns, Returns-and_then, Returns-Ensures, Ensures, ok, Cmd, pure, ◌>>◌,
}
use boom_stop.Pk.Frontend.{Host, Calls, CString, at_fdcwd, is_err_value, enomem}
use boom_stop.Pk.File.{Io, max_fds, Opened, opened, failed, file_decref}
use boom_stop.Pk.File.Count.{refers, refers-le-count}
use boom_stop.Pk.File.Refs.{Balanced, more, Fits, file_decref-Dropped}
use boom_stop.Pk.File.Ops.{lookup_fd, take_ref, Got, file_get-Got, Dupped, file_dup-Dupped}
use boom_stop.Pk.File.Close.{fewer-more, fd_close-Closed}
use boom_stop.Pk.File.Open.{
  open_answer, OpenedSlot, OpenResult, Refused, no_slot, refused, file_openat-OpenResult,
}
use boom_stop.Pk.Syscall.Fd.{sys_open, openat_fd, sys_close, at_kfd}

-- The host's errors are error numbers: -4095 to -1.
abbrev pub IsErrno : Host → Type 0
IsErrno host =
    (calls : Calls)
    → is_neg (u64 (host.answer calls)) ≡ true
    → is_err_value (u64 (host.answer calls)) ≡ true

int_of_err : (r : ℕ) → r < 2 ^ 64 → is_err_value r ≡ true → is_neg (to_int r) ≡ true
int_of_err r h e = ground arith

module _ (host : Host) (held : ℕ → ℕ) (io : Io) (fn : CString) (flags mode : ℕ) where
  -- A descriptor `fd` that was unused now refers to a slot `f` that was free, with the host's
  -- answer as its file; beside that descriptor one more reference to the slot is counted.
  pub record Fresh (f fd : ℕ) (io' : Io) : Type 0 where
    pub in_fds : fd < max_fds
    pub was_free : (io.files f).refcnt ≡ 0
    pub was_unused : io.fds fd ≡ none
    pub fds : io'.fds ≡ update io.fds fd (some f)
    pub kfd : (io'.files f).kfd ≡ to_int (open_answer host io at_fdcwd fn flags mode)
    pub balanced : Balanced (more held f) io'

  pub data OpenOutcome (r : ℕ) (io' : Io) : Type 0 where
    fresh : (f : ℕ) → Fresh f r io' → OpenOutcome r io'
    error : is_neg r ≡ true → Balanced held io' → io'.fds ≡ io.fds → OpenOutcome r io'

  opened_lem :
      (f : ℕ) (io1 : Io)
      → OpenedSlot host held io at_fdcwd fn flags mode f io1
      → Returns OpenOutcome (openat_fd host (opened f) io1)
  unfolding openat_fd
  opened_lem f io1 o =
      Returns-and_then (file_dup-Dupped (more held f) f io1 o.balanced (ground arith) o.fits) dupped
    where
      dupped :
          (fd : ℕ) (io2 : Io)
          → Dupped (more held f) f io1 fd io2
          → Returns OpenOutcome
              ((if is_neg fd then (do file_decref host f; pure (neg enomem)) else pure fd) io2)
      dupped fd io2 (inl (e, same, full)) =
          rw (e, same)
            (Returns-and_then
              (file_decref-Dropped host (more held f) f io1 o.balanced (ground arith)
                (λ g. omega (arith, o.fits g)))
              λ _ io3 d. returns (
                error refl (subst (λ h. Balanced h io3) (fewer-more held f) d.balanced)
                  (d.same_fds ∙ o.same_fds)))
      dupped fd io2 (inr d) =
          let small : is_neg fd ≡ false = ground (arith, d.0) in
          rw small (
            returns (
              fresh f (record {
                in_fds = d.0;
                was_free = o.was_free;
                was_unused = sym (ap (λ x. x fd) o.same_fds) ∙ d.1;
                fds = d.3 ∙ ap (λ x. update x fd (some f)) o.same_fds;
                kfd = d.5 f ∙ o.kfd;
                balanced = d.7;
              })))

  failed_lem :
      (r : ℕ) (io1 : Io)
      → IsErrno host
      → Refused host held io at_fdcwd fn flags mode r io1
      → Balanced held io
      → Returns OpenOutcome (openat_fd host (failed r) io1)
  unfolding openat_fd
  failed_lem r io1 errno (no_slot e same full) b = rw (e, same) (returns (error refl b refl))
  failed_lem r io1 errno (refused f e bad free bal fds calls) b =
      let err : is_err_value r ≡ true = rw e (errno _ bad) in
      rw err (returns (error (int_of_err r (rw e (omega arith)) err) bal fds))

  pub sys_open-OpenOutcome :
      IsErrno host
      → Balanced held io
      → Fits io
      → Returns OpenOutcome (sys_open host fn flags mode io)
  unfolding sys_open
  sys_open-OpenOutcome errno b fits =
      Returns-and_then (file_openat-OpenResult host held io at_fdcwd fn flags mode b fits) next
    where
      next :
          (r : Opened) (io1 : Io)
          → OpenResult host held io at_fdcwd fn flags mode r io1
          → Returns OpenOutcome (openat_fd host r io1)
      next (opened f) io1 o = opened_lem f io1 o
      next (failed r) io1 o = failed_lem r io1 errno o b

-- Closing a descriptor of a slot that one more reference is counted for.
close_lem :
    (host : Host) (held : ℕ → ℕ) (f fd : ℕ) (io : Io)
    → Balanced (more held f) io
    → Fits io
    → fd < max_fds
    → io.fds fd ≡ some f
    → Returns
        (λ r io'.
          (r ≡ 0) × ((io'.files f).refcnt ≢ 0) × (io'.calls ≡ io.calls) × (io'.fds fd ≡ none))
        (sys_close host fd io)
unfolding sys_close
close_lem host held f fd io b fits small here =
    let is_slot : lookup_fd io fd ≡ some f = rw (← here) (ground arith) in
    let one : refers (io.fds fd) f ≡ 1 = rw here (rw (==_self f)) in
    Returns-and_then (fd_close-Closed host (more held f) f fd io b fits is_slot) λ r io' c.
      rw c.result (
        returns (
          refl,
          ground (arith, c.balanced f),
          ground (arith, c.closes, one, refers-le-count io.fds max_fds fd f small),
          ap (λ x. x fd) c.unused ∙ (rw (==_self fd)),
        ))

-- With a host whose errors are error numbers and counts that balance and fit, after `sys_open`
-- gave a descriptor, `sys_close` of it returns 0, but the slot that was free before stays in use
-- and no call asks the host to close the file.
pub open-close_leaks :
    (host : Host) (held : ℕ → ℕ) (io io1 : Io) (fn : CString) (flags mode fd : ℕ)
    → IsErrno host
    → Balanced held io
    → Fits io
    → sys_open host fn flags mode io ≡ ok fd io1
    → fd < max_fds
    → Fits io1
    → (f : ℕ) × ((io.files f).refcnt ≡ 0)
      × Returns
          (λ r io2.
            (r ≡ 0) × ((io2.files f).refcnt ≢ 0) × (io2.calls ≡ io1.calls) × (io2.fds fd ≡ none))
          (sys_close host fd io1)
open-close_leaks host held io io1 fn flags mode fd errno b fits e small fits1 = outcome (
    subst (Ensures (OpenOutcome host held io fn flags mode)) e
      (Returns-Ensures (sys_open-OpenOutcome host held io fn flags mode errno b fits)))
  where
    outcome :
        OpenOutcome host held io fn flags mode fd io1
        → (f : ℕ) × ((io.files f).refcnt ≡ 0)
          × Returns
              (λ r io2.
                (r ≡ 0)
                × ((io2.files f).refcnt ≢ 0)
                × (io2.calls ≡ io1.calls)
                × (io2.fds fd ≡ none))
              (sys_close host fd io1)
    outcome (error bad _ _) = absurd (ground arith)
    outcome (fresh f new) = (
      f,
      new.was_free,
      close_lem host held f fd io1 new.balanced fits1 small
          (ap (λ x. x fd) new.fds ∙ (rw (==_self fd))),
    )

abbrev pub kfd_of : Io → Option ℕ → ℕ
kfd_of io none = neg 1
kfd_of io (some f) = (io.files f).kfd

-- With counts that balance and fit, `at_kfd` of a number other than `AT_FDCWD` returns the host's
-- descriptor of an open file, or -1, and the reference it took stays counted.
pub at_kfd_leaks :
    (held : ℕ → ℕ) (dirfd : ℕ) (io : Io)
    → Balanced held io
    → Fits io
    → dirfd ≢ at_fdcwd
    → Returns
        (λ kfd io'.
          Balanced (take_ref (lookup_fd io dirfd) held) io'
          × (io'.fds ≡ io.fds)
          × (kfd ≡ kfd_of io (lookup_fd io dirfd)))
        (at_kfd dirfd io)
unfolding at_kfd
at_kfd_leaks held dirfd io b fits ne =
    let other : (dirfd == at_fdcwd) ≡ false = ground arith in
    rw other (Returns-and_then (file_get-Got held dirfd io b fits) next)
  where
    next :
        (r : Option ℕ) (io1 : Io)
        → Got held dirfd io r io1
        → Returns
            (λ kfd io'.
              Balanced (take_ref (lookup_fd io dirfd) held) io'
              × (io'.fds ≡ io.fds)
              × (kfd ≡ kfd_of io (lookup_fd io dirfd)))
            ((elim r as (λ x. Cmd Io ℕ) [
              | none ↦ pure (neg 1)
              | some f ↦ λ s. ok (s.files f).kfd s
            ])
              io1)
    next none io1 g = rw (← g.result) (returns (g.balanced, g.same_fds, refl))
    next (some f) io1 g = rw (← g.result) (returns (g.balanced, g.same_fds, g.same_kfds f))
