-- ===== src/Pk/File/Refs.antt =====
-- The reference counts of file.c are right: each operation keeps `Balanced`.
use boom_stop.Base.{
  ℕ, ◌+◌, ◌-◌, ◌<◌, ◌≤◌, ◌^◌, ◌≡◌, refl, ◌≢◌, ◌⊎◌, inl, inr, true, ◌∷◌, arith, ◌==◌, if◌then◌else◌,
  Bool-cases, ltb, u32,
}
use boom_stop.Base.Cmd.{Returns, returns}
use boom_stop.Pk.Frontend.{Host}
use boom_stop.Pk.File.{Io, max_fds, close_request, file_incref, file_decref, blank, set_refcnt}
use boom_stop.Pk.File.Count.{count, count-none}

-- A slot with `h` references held by the kernel's code, `c` descriptors that refer to it and the
-- reference count `r`: free, or in use with one more than all of these.
abbrev pub Slot : ℕ → ℕ → ℕ → Type 0
Slot h c r = ((h + c ≡ 0) × (r ≡ 0)) ⊎ ((0 < h + c) × (r ≡ h + c + 1))

-- `held f` references to slot `f` are held by the kernel's code.
abbrev pub Balanced : (ℕ → ℕ) → Io → Type 0
Balanced held io = (f : ℕ) → Slot (held f) (count io.fds max_fds f) (io.files f).refcnt

abbrev pub more : (ℕ → ℕ) → ℕ → ℕ → ℕ
more held f g = if f == g then held g + 1 else held g

abbrev pub fewer : (ℕ → ℕ) → ℕ → ℕ → ℕ
fewer held f g = if f == g then held g - 1 else held g

-- No count is at the top of a `uint32_t`.
abbrev pub Fits : Io → Type 0
Fits io = (f : ℕ) → (io.files f).refcnt + 1 < 2 ^ 32

-- A count is a `uint32_t`.
abbrev pub InRange : Io → Type 0
InRange io = (f : ℕ) → (io.files f).refcnt < 2 ^ 32

pub blank-Balanced : Balanced (λ _. 0) blank
blank-Balanced f = ground (arith, count-none max_fds f)

-- One more reference to a slot in use.
pub raise-Balanced :
    (held : ℕ → ℕ) (f : ℕ) (io : Io)
    → Balanced held io
    → (io.files f).refcnt ≢ 0
    → Fits io
    → Balanced (more held f) (set_refcnt f (u32 ((io.files f).refcnt + 1)) io)
raise-Balanced held f io b used fits g = elim (Bool-cases (f == g)) [
  | inl e ↦ let q : f ≡ g = ground arith in rw e (ground (arith, b f, fits f, q))
  | inr n ↦ rw n (ground (arith, b g))
]

pub file_incref-Balanced :
    (held : ℕ → ℕ) (f : ℕ) (io : Io)
    → Balanced held io
    → 0 < held f
    → Fits io
    → Returns (λ _ io'. Balanced (more held f) io') (file_incref f io)
unfolding file_incref
file_incref-Balanced held f io b h fits =
    let used : ltb 0 (io.files f).refcnt ≡ true = ground (arith, b f) in
    rw used (returns (raise-Balanced held f io b (ground arith) fits))

-- What `file_decref` of slot `f` does: one reference less, and a call that closes the file on the
-- host exactly if no other reference was left.
pub record Dropped (held : ℕ → ℕ) (f : ℕ) (io io' : Io) : Type 0 where
  pub balanced : Balanced (fewer held f) io'
  pub same_fds : io'.fds ≡ io.fds
  pub closes : io'.calls ≡ (
      if held f + count io.fds max_fds f == 1
      then close_request (io.files f).kfd ∷ io.calls
      else io.calls)
  pub others : (g : ℕ) → f ≢ g → io'.files g ≡ io.files g
  pub same_kfds : (g : ℕ) → (io'.files g).kfd ≡ (io.files g).kfd
  pub not_more : (g : ℕ) → (io'.files g).refcnt ≤ (io.files g).refcnt

module _ (host : Host) (held : ℕ → ℕ) (f : ℕ) (io : Io) (b : Balanced held io) where
  decref-Slot :
      0 < held f
      → (g : ℕ)
      → Slot (fewer held f g) (count io.fds max_fds g) (
          if f == g
          then (if (io.files f).refcnt == 2 then 0 else (io.files f).refcnt - 1)
          else (io.files g).refcnt)
  decref-Slot h g = elim (Bool-cases (f == g)) [
    | inl e ↦ let q : f ≡ g = ground arith in rw e (ground (arith, b f, q))
    | inr n ↦ rw n (ground (arith, b g))
  ]

  -- With counts that balance and a reference to the slot held, `file_decref` returns, counts one
  -- reference less, leaves the descriptors and the other slots alone, and asks the host to close
  -- the file exactly if no reference is left.
  pub file_decref-Dropped :
      0 < held f → InRange io → Returns (λ _ io'. Dropped held f io io') (file_decref host f io)
  unfolding file_decref
  file_decref-Dropped h fits = elim (Bool-cases ((io.files f).refcnt == 2)) [
    | inl last ↦ rw last (
        returns (record {
          balanced = λ g. ground (arith, decref-Slot h g);
          same_fds = refl;
          closes = ground (arith, b f);
          others = λ g n. ground arith;
          same_kfds = λ g. ground arith;
          not_more = λ g. ground (arith, fits g, fits f, b f);
        }))
    | inr more_left ↦ rw more_left (
        returns (record {
          balanced = λ g. ground (arith, decref-Slot h g, b f, fits f);
          same_fds = refl;
          closes = ground (arith, b f);
          others = λ g n. ground arith;
          same_kfds = λ g. ground arith;
          not_more = λ g. ground (arith, fits g, fits f, b f);
        }))
  ]
