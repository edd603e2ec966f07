-- ===== src/Pk/File/Close.antt =====
-- `fd_close` of file.c: the descriptor is unused afterwards, its reference is given back, and the
-- file is closed on the host exactly if that was the last reference.
use boom_stop.Base.{
  ℕ, ◌+◌, ◌<◌, ◌≡◌, refl, subst, inl, inr, true, none, some, ◌∷◌, arith, ◌==◌, if◌then◌else◌,
  Bool-cases, update, leb, is_neg, neg, ◌||◌, ap, fun_ext, ◌∙◌, ==_self,
}
use boom_stop.Base.Cmd.{Returns, returns, Returns-and_then, Returns-mono, ok}
use boom_stop.Pk.Frontend.{Host, Calls}
use boom_stop.Pk.File.{
  Io, max_fds, file_get, fd_close, close_done, close_request, set_fd, same_file,
}
use boom_stop.Pk.File.Count.{count, refers, count-update}
use boom_stop.Pk.File.Refs.{Balanced, more, fewer, Fits, InRange, file_decref-Dropped}
use boom_stop.Pk.File.Ops.{lookup_fd, take_ref, file_get-Got}

-- The reference of a descriptor that is taken out of the table is held by the code.
unset-Balanced :
    (held : ℕ → ℕ) (fd f : ℕ) (io : Io)
    → Balanced held io
    → fd < max_fds
    → io.fds fd ≡ some f
    → Balanced (more held f) (set_fd fd none io)
unset-Balanced held fd f io b below e g = elim (Bool-cases (f == g)) [
  | inl q ↦
      let before : refers (io.fds fd) g ≡ 1 = rw (e, q) in
      rw q (ground (arith, b g, before, count-update io.fds max_fds fd g none below))
  | inr n ↦
      let before : refers (io.fds fd) g ≡ 0 = rw (e, n) in
      rw n (ground (arith, b g, before, count-update io.fds max_fds fd g none below))
]

pub fewer-more : (held : ℕ → ℕ) (f : ℕ) → fewer (more held f) f ≡ held
fewer-more held f = fun_ext λ g. ground arith

-- The calls to the host after the last reference to slot `f` may have gone.
abbrev pub calls_after : ℕ → ℕ → Calls → Calls
calls_after refs kfd calls = if refs == 1 then close_request kfd ∷ calls else calls

pub record Closed (held : ℕ → ℕ) (fd f : ℕ) (io : Io) (r : ℕ) (io' : Io) : Type 0 where
  pub result : r ≡ 0
  pub unused : io'.fds ≡ update io.fds fd none
  pub balanced : Balanced held io'
  pub closes : io'.calls ≡ calls_after (held f + count io.fds max_fds f) (io.files f).kfd io.calls

module _ (host : Host) (held : ℕ → ℕ) (f : ℕ) where
  close_done_lem :
      (io : Io)
      → Balanced (more (more held f) f) io
      → InRange io
      → Returns
          (λ r io'.
            (r ≡ 0)
            × (io'.fds ≡ io.fds)
            × Balanced held io'
            × (io'.calls
                ≡ calls_after (held f + count io.fds max_fds f + 1) (io.files f).kfd io.calls))
          (close_done host f true io)
  unfolding close_done
  close_done_lem io b fits =
      Returns-and_then (file_decref-Dropped host _ f io b (ground arith) fits) λ _ mid d1.
        Returns-and_then
          (file_decref-Dropped host held' f mid
            (subst (λ h. Balanced h mid) (fewer-more held' f) d1.balanced) (ground arith)
            (λ g. omega (arith, d1.not_more g, fits g)))
          λ _ io' d2. returns (
            refl,
            d2.same_fds ∙ d1.same_fds,
            subst (λ h. Balanced h io') (fewer-more held f) d2.balanced,
            ground (
              arith,
              d1.closes,
              d2.closes,
              d1.same_kfds f,
              d1.same_fds,
              ap (λ x. count x max_fds f) d1.same_fds,
            ),
          )
    where
      held' : ℕ → ℕ
      held' = more held f

  -- With counts that balance and fit, `fd_close` of an open descriptor returns 0, makes exactly
  -- that descriptor unused, keeps the balance, and closes the file on the host exactly if the
  -- descriptor was the last reference.
  pub fd_close-Closed :
      (fd : ℕ) (io : Io)
      → Balanced held io
      → Fits io
      → lookup_fd io fd ≡ some f
      → Returns (Closed held fd f io) (fd_close host fd io)
  unfolding fd_close
  fd_close-Closed fd io b fits e = Returns-and_then (file_get-Got held fd io b fits) λ r io1 got.
      let q : r ≡ some f = got.result ∙ e in
      let b1 = subst (λ x. Balanced (take_ref x held) io1) q got.balanced in
      let below : fd < max_fds = ground arith in
      let here : io1.fds fd ≡ some f = ground (arith, ap (λ x. x fd) got.same_fds) in
      let same : same_file (io1.fds fd) f ≡ true = rw here (==_self f) in
      rw (q, same)
        (Returns-mono
          (close_done_lem (set_fd fd none io1) (unset-Balanced (more held f) fd f io1 b1 below here)
            got.in_range)
          λ r io' (zero_result, unused, bal, closes). record {
            result = zero_result;
            unused = unused ∙ ap (λ x. update x fd none) got.same_fds;
            balanced = bal;
            closes = ground (
              arith,
              closes,
              got.same_calls,
              got.same_kfds f,
              ap (λ x. count x max_fds f) got.same_fds,
              count-update io1.fds max_fds fd f none below,
              (let one : refers (io1.fds fd) f ≡ 1 = rw here (rw (==_self f)) in one),
            );
          })

  pub fd_close-unused :
      (fd : ℕ) (io : Io) → lookup_fd io fd ≡ none → fd_close host fd io ≡ ok (neg 1) io
  unfolding fd_close file_get
  fd_close-unused fd io e = elim (Bool-cases (is_neg fd || leb max_fds fd)) [
    | inl bad ↦ rw bad
    | inr good ↦ let q : io.fds fd ≡ none = rw good at e in rw (good, q)
  ]
