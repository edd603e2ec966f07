-- ===== src/Pk/File/Ops.antt =====
-- What `file_get`, `file_get_free` and `file_dup` of file.c return, and that they keep the
-- reference counts right.
use boom_stop.Base.{
  ℕ, ◌+◌, ◌<◌, ◌≤◌, ◌≡◌, refl, sym, ◌≢◌, ◌⊎◌, inl, inr, true, false, Option, none, some, arith,
  ◌==◌, if◌then◌else◌, Bool-cases, Option-cases, update, find_from, find_from-Found, find_from-none,
  leb, ltb, u32, is_neg, neg, ◌||◌,
}
use boom_stop.Base.Cmd.{Returns, returns}
use boom_stop.Pk.File.{
  Io, max_fds, max_files, is_unused, is_free, file_incref, file_get_free, file_dup, file_get,
  set_refcnt,
}
use boom_stop.Pk.File.Count.{count, refers, count-update, refers-le-count}
use boom_stop.Pk.File.Refs.{Slot, Balanced, more, Fits, InRange, raise-Balanced}

-- The slot that a descriptor number refers to.
abbrev pub lookup_fd : Io → ℕ → Option ℕ
lookup_fd io fd = if is_neg fd || leb max_fds fd then none else io.fds fd

abbrev pub take_ref : Option ℕ → (ℕ → ℕ) → ℕ → ℕ
take_ref none held = held
take_ref (some f) held = more held f

-- A descriptor that is open gives its file, with one more reference, and any other gives none.
pub record Got (held : ℕ → ℕ) (fd : ℕ) (io : Io) (r : Option ℕ) (io' : Io) : Type 0 where
  pub result : r ≡ lookup_fd io fd
  pub balanced : Balanced (take_ref r held) io'
  pub same_fds : io'.fds ≡ io.fds
  pub same_calls : io'.calls ≡ io.calls
  pub same_kfds : (g : ℕ) → (io'.files g).kfd ≡ (io.files g).kfd
  pub in_range : InRange io'

module _ (held : ℕ → ℕ) (fd : ℕ) (io : Io) (b : Balanced held io) (fits : Fits io) where
  Got-none : lookup_fd io fd ≡ none → Got held fd io none io
  Got-none e = record {
    result = sym e;
    balanced = b;
    same_fds = refl;
    same_calls = refl;
    same_kfds = λ g. refl;
    in_range = λ g. omega (arith, fits g);
  }

  pub refcnt_of_fd : (f : ℕ) → fd < max_fds → io.fds fd ≡ some f → (io.files f).refcnt ≢ 0
  refcnt_of_fd f h e =
      let one : refers (io.fds fd) f ≡ 1 = rw e (ground arith) in
      ground (arith, b f, refers-le-count io.fds max_fds fd f)

  -- With counts that balance and fit, `file_get` returns the slot of an open descriptor with one
  -- more reference held, and `NULL` for a number out of range or an unused descriptor; it leaves
  -- the descriptors and the host alone.
  pub file_get-Got : Returns (Got held fd io) (file_get fd io)
  unfolding file_get
  file_get-Got = elim (Bool-cases (is_neg fd || leb max_fds fd)) [
    | inl bad ↦ rw bad (returns (Got-none (rw bad)))
    | inr good ↦ elim (Option-cases (io.fds fd)) [
      | inl e ↦ rw (good, e) (returns (Got-none (rw (good, e))))
      | inr (f, e) ↦
          let below : fd < max_fds = ground arith in
          let used : ((io.files f).refcnt == 0) ≡ false = ground (arith, refcnt_of_fd f below e) in
          rw (good, e, used)
            (returns (record {
              result = rw (good, e);
              balanced = raise-Balanced held f io b (ground arith) fits;
              same_fds = refl;
              same_calls = refl;
              same_kfds = λ g. ground arith;
              in_range = λ g. ground (arith, fits g, fits f);
            }))
    ]
  ]

-- A free slot, now held once; or there is none, and nothing is changed.
abbrev pub GotFree : (ℕ → ℕ) → Io → Option ℕ → Io → Type 0
GotFree held io none io' = (io' ≡ io) × ((f : ℕ) → f < max_files → (io.files f).refcnt ≢ 0)
GotFree held io (some f) io' =
    (f < max_files)
    × ((io.files f).refcnt ≡ 0)
    × (held f ≡ 0)
    × (io' ≡ set_refcnt f 2 io)
    × Balanced (more held f) io'

-- With counts that balance, `file_get_free` returns a slot that was free and sets its count to 2,
-- one reference held; it returns `NULL` only if every slot is in use, and then changes nothing.
pub file_get_free-GotFree :
    (held : ℕ → ℕ) (io : Io) → Balanced held io → Returns (GotFree held io) (file_get_free io)
unfolding file_get_free
file_get_free-GotFree held io b = elim (Option-cases (find_from (is_free io) max_files 0)) [
  | inl e ↦
      rw (e, file_get_free)
        (returns (
          refl,
          λ f h. ground (arith, find_from-none (is_free io) max_files 0 max_files f refl e _ h),
        ))
  | inr (f, e) ↦
      let found = find_from-Found (is_free io) max_files 0 max_files f refl e in
      rw (e, file_get_free)
        (returns (
          found.below,
          ground (arith, found.passes),
          ground (arith, found.passes, b f),
          refl,
          λ g. ground (arith, found.passes, b g, b f),
        ))
]

-- The lowest unused descriptor now refers to the file; or all are in use, and nothing is changed.
abbrev pub Dupped : (held : ℕ → ℕ) (f : ℕ) → Io → ℕ → Io → Type 0
Dupped held f io fd io' =
    ((fd ≡ neg 1) × (io' ≡ io) × ((i : ℕ) → i < max_fds → io.fds i ≢ none))
    ⊎ ((fd < max_fds)
        × (io.fds fd ≡ none)
        × ((i : ℕ) → i < fd → io.fds i ≢ none)
        × (io'.fds ≡ update io.fds fd (some f))
        × (io'.calls ≡ io.calls)
        × ((g : ℕ) → (io'.files g).kfd ≡ (io.files g).kfd)
        × ((g : ℕ) → (io'.files g).refcnt ≤ (io.files g).refcnt + 1)
        × Balanced held io')

-- The slots after a new descriptor `i` for `f`.
module _ (held : ℕ → ℕ) (f : ℕ) (io : Io) (b : Balanced held io) (fits : Fits io) where
  dup-Slot :
      (i g : ℕ)
      → i < max_fds
      → io.fds i ≡ none
      → (io.files f).refcnt ≢ 0
      → Slot
          (held g)
          (count (update io.fds i (some f)) max_fds g)
          ((set_refcnt f (u32 ((io.files f).refcnt + 1)) io).files g).refcnt
  dup-Slot i g below unused used =
      let before : refers (io.fds i) g ≡ 0 = rw unused in
      let counts = count-update io.fds max_fds i g (some f) below in
      elim (Bool-cases (f == g)) [
        | inl e ↦
            let q : f ≡ g = ground arith in rw e (ground (arith, b f, fits f, q, counts, before))
        | inr n ↦ rw n (ground (arith, b g, counts, before))
      ]

-- With counts that balance and fit and the file held, `file_dup` gives the lowest unused
-- descriptor, makes it refer to the file and keeps the balance; if all are in use it returns -1 and
-- changes nothing.
pub file_dup-Dupped :
    (held : ℕ → ℕ) (f : ℕ) (io : Io)
    → Balanced held io
    → 0 < held f
    → Fits io
    → Returns (Dupped held f io) (file_dup f io)
unfolding file_dup file_incref
file_dup-Dupped held f io b h fits = elim (Option-cases (find_from (is_unused io) max_fds 0)) [
  | inl e ↦
      rw (e, file_dup)
        (returns (
          inl (
            refl,
            refl,
            λ j l. ground (arith, find_from-none (is_unused io) max_fds 0 max_fds j refl e _ l),
          )))
  | inr (i, e) ↦
      let found = find_from-Found (is_unused io) max_fds 0 max_fds i refl e in
      let used : ltb 0 (io.files f).refcnt ≡ true = ground (arith, b f) in
      rw (e, file_dup, used)
        (returns (
          inr (
            found.below,
            ground (arith, found.passes),
            λ j l. ground (arith, found.first j _ l),
            refl,
            refl,
            λ g. ground arith,
            λ g. ground (arith, fits g, fits f),
            λ g.
                dup-Slot held f io b fits i g found.below (ground (arith, found.passes))
                  (ground (arith, b f)),
          )))
]
