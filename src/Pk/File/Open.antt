-- ===== src/Pk/File/Open.antt =====
-- `file_openat` of file.c: on success the caller holds one reference to a slot that carries the
-- host's descriptor; a refusal by the host gives the slot back.
use boom_stop.Base.{
  ℕ, ◌<◌, ◌≡◌, refl, subst, ◌≢◌, inl, inr, true, false, Option, none, some, ◌∷◌, arith, Bool-cases,
  u64, is_neg, neg, to_int,
}
use boom_stop.Base.Cmd.{Returns, returns, Returns-and_then, Cmd, pure, ◌>>=◌}
use boom_stop.Pk.Frontend.{Host, Calls, CString, enomem}
use boom_stop.Pk.File.{
  Io, max_files, file_openat, openat_done, openat_request, close_request, set_refcnt, Opened,
  opened, failed, call,
}
use boom_stop.Pk.File.Refs.{Balanced, more, Fits, InRange, file_decref-Dropped}
use boom_stop.Pk.File.Ops.{GotFree, file_get_free-GotFree}
use boom_stop.Pk.File.Close.{fewer-more}

-- The host's answer to the call that opens a file.
abbrev pub open_answer : Host → Io → ℕ → CString → ℕ → ℕ → ℕ
open_answer host io dirfd fn flags mode =
    u64 (host.answer (openat_request io dirfd fn flags mode ∷ io.calls))

module _ (host : Host) (held : ℕ → ℕ) (io : Io) (dirfd : ℕ) (fn : CString) (flags mode : ℕ) where
  abbrev ret : ℕ
  ret = open_answer host io dirfd fn flags mode

  abbrev asked : Calls
  asked = openat_request io dirfd fn flags mode ∷ io.calls

  pub record OpenedSlot (f : ℕ) (io' : Io) : Type 0 where
    pub answered : is_neg ret ≡ false
    pub was_free : (io.files f).refcnt ≡ 0
    pub in_table : f < max_files
    pub kfd : (io'.files f).kfd ≡ to_int ret
    pub balanced : Balanced (more held f) io'
    pub fits : Fits io'
    pub same_fds : io'.fds ≡ io.fds
    pub calls : io'.calls ≡ asked

  -- `NULL` from `file_get_free`, or an error of the host. In the second case a close of the
  -- descriptor that the slot held before follows the call.
  pub data Refused (r : ℕ) (io' : Io) : Type 0 where
    no_slot :
        r ≡ neg enomem
        → io' ≡ io
        → ((f : ℕ) → f < max_files → (io.files f).refcnt ≢ 0)
        → Refused r io'
    refused :
        (f : ℕ)
        → r ≡ ret
        → is_neg ret ≡ true
        → (io.files f).refcnt ≡ 0
        → Balanced held io'
        → io'.fds ≡ io.fds
        → io'.calls ≡ close_request (io.files f).kfd ∷ asked
        → Refused r io'

  abbrev pub OpenResult : Opened → Io → Type 0
  OpenResult (opened f) io' = OpenedSlot f io'
  OpenResult (failed r) io' = Refused r io'

  done_lem :
      (f : ℕ)
      → f < max_files
      → (io.files f).refcnt ≡ 0
      → held f ≡ 0
      → Balanced (more held f) (set_refcnt f 2 io)
      → Fits io
      → Returns OpenResult (openat_done host f ret (record (set_refcnt f 2 io) { calls = asked }))
  unfolding openat_done
  done_lem f below free none_held b fits =
      let io1 : Io = record (set_refcnt f 2 io) { calls = asked } in
      let small : InRange io1 = λ g. ground (arith, fits g) in
      elim (Bool-cases (is_neg ret)) [
        | inl bad ↦ rw bad (
            Returns-and_then (file_decref-Dropped host (more held f) f io1 b (ground arith) small)
              λ _ io' d. returns (
                refused f refl bad free (subst (λ h. Balanced h io') (fewer-more held f) d.balanced)
                  d.same_fds (ground (arith, d.closes, b f))))
        | inr good ↦ rw good (
            returns (record {
              answered = good;
              was_free = free;
              in_table = below;
              kfd = ground arith;
              balanced = λ g. ground (arith, b g);
              fits = λ g. ground (arith, fits g);
              same_fds = refl;
              calls = refl;
            }))
      ]

  -- With counts that balance and fit, `file_openat` returns a slot that was free, with the host's
  -- descriptor and one reference held; or, with no free slot, -ENOMEM and the state unchanged; or
  -- the host's error with the slot given back, after a close of the descriptor that the slot
  -- carried before.
  pub file_openat-OpenResult :
      Balanced held io → Fits io → Returns OpenResult (file_openat host dirfd fn flags mode io)
  unfolding file_openat
  file_openat-OpenResult b fits = Returns-and_then (file_get_free-GotFree held io b) step
    where
      step :
          (slot : Option ℕ) (io1 : Io)
          → GotFree held io slot io1
          → Returns OpenResult (
              (elim slot as (λ x. Cmd Io Opened) [
                | none ↦ pure (failed (neg enomem))
                | some f ↦ λ io'.
                    (do openat_done host f (← call host (openat_request io' dirfd fn flags mode)))
                      io'
              ])
                io1)
      step none io1 (same, full) = returns (no_slot refl same full)
      step (some f) io1 (below, free, none_held, e, bal) =
          rw e (done_lem f below free none_held (subst (λ s. Balanced (more held f) s) e bal) fits)
