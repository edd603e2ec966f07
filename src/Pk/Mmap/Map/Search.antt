-- ===== src/Pk/Mmap/Map/Search.antt =====
-- `__vm_alloc` finds the lowest place for the pages, and gives up only if there is none.
use boom_stop.Base.{
  ℕ, zero, suc, ◌+◌, ◌*◌, ◌-◌, ◌^◌, ◌<◌, ◌≤◌, ◌≡◌, refl, ◌⊎◌, inl, inr, false, true, some, arith,
  ◌==◌, ltb, leb, u64, ◌∙◌, ap, subst, Bool-cases,
}
use boom_stop.Pk.Mmap.State.{Kernel, pgsize}
use boom_stop.Pk.Mmap.Walk.{va_avail}
use boom_stop.Base.Cmd.{Returns, returns, ok}
use boom_stop.Pk.Mmap.Map.{avail_down, vm_search, vm_alloc, vm_end}

-- All of the `npage` pages from `a` on are unused.
abbrev pub Window : Kernel → (npage a : ℕ) → Type 0
Window k npage a = (j : ℕ) → j < npage → va_avail k (a + j * pgsize) ≡ true

module _ (k : Kernel) where
  -- Where the inner loop stops: at `first` with all pages above it unused, or at one that is used.
  abbrev Stops : (above first stop : ℕ) → Type 0
  Stops above first stop =
      ((stop ≡ first) × ((j : ℕ) → 0 < j → j ≤ above → va_avail k (first + j * pgsize) ≡ true))
      ⊎ ((j : ℕ) × (0 < j) × (j ≤ above) × (stop ≡ first + j * pgsize) × (va_avail k stop ≡ false))

  Stops-suc :
      (above first stop : ℕ)
      → va_avail k (first + suc above * pgsize) ≡ true
      → Stops above first stop
      → Stops (suc above) first stop
  Stops-suc above first stop free (inl (e, lower)) = inl (
    e,
    λ j p q. elim (Bool-cases (j == suc above)) [
      | inl t ↦ let s : j ≡ suc above = ground arith in rw s free
      | inr t ↦ lower j p (ground arith)
    ],
  )
  Stops-suc above first stop free (inr (j, p, q, e, used)) = inr (j, p, omega arith, e, used)

  avail_down-Stops :
      (above first : ℕ)
      → first + above * pgsize < 2 ^ 64
      → Stops above first (avail_down k above first)
  unfolding avail_down
  avail_down-Stops zero first h = inl (refl, λ j p q. absurd (omega arith))
  avail_down-Stops (suc above) first h =
      let a : ℕ = first + suc above * pgsize in
      let same : u64 (first + suc above * pgsize) ≡ a = omega arith in
      let higher : ltb first (first + suc above * pgsize) ≡ true = ground arith in
      rw (same, higher)
        (elim (Bool-cases (va_avail k a)) [
          | inl free ↦
              rw free (Stops-suc above first _ free (avail_down-Stops above first (omega arith)))
          | inr used ↦ rw used (inr (suc above, omega arith, omega arith, refl, used))
        ])

  -- The lowest place from `a` on, in steps of a page, that ends by the limit; or 0 and there is none.
  pub data Outcome (npage end a r : ℕ) : Type 0 where
    found :
        (i : ℕ)
        → r ≡ a + i * pgsize
        → r ≤ end
        → Window k npage r
        → ((j : ℕ) → j < i → ¬ Window k npage (a + j * pgsize))
        → Outcome npage end a r
    full :
        r ≡ 0
        → ((j : ℕ) → a + j * pgsize ≤ end → ¬ Window k npage (a + j * pgsize))
        → Outcome npage end a r

  -- No place among the first `skip` pages: what is found behind them is found from here on.
  Outcome-skip :
      (npage end a r skip : ℕ)
      → ((j : ℕ) → j < skip → ¬ Window k npage (a + j * pgsize))
      → Outcome npage end (a + skip * pgsize) r
      → Outcome npage end a r
  Outcome-skip npage end a r skip none_before (found i e below window first) =
      found (skip + i) (omega arith) below window λ j h w. elim (Bool-cases (ltb j skip)) [
        | inl t ↦ none_before j (ground arith) w
        | inr t ↦ first (j - skip) (ground arith) (
            subst (Window k npage)
              (let q : a + j * pgsize ≡ a + skip * pgsize + (j - skip) * pgsize = ground arith in q)
              w)
      ]
  Outcome-skip npage end a r skip none_before (full e empty) = full e λ j h w.
      elim (Bool-cases (ltb j skip)) [
        | inl t ↦ none_before j (ground arith) w
        | inr t ↦
            let q : a + j * pgsize ≡ a + skip * pgsize + (j - skip) * pgsize = ground arith in
            empty (j - skip) (omega arith) (subst (Window k npage) q w)
      ]

  -- The page with index `p` from `a` on is one of a place that begins at or before it.
  page_of-Window :
      (npage a j p : ℕ)
      → Window k npage (a + j * pgsize)
      → j ≤ p
      → p < j + npage
      → va_avail k (a + p * pgsize) ≡ true
  page_of-Window npage a j p w h l =
      let q : a + j * pgsize + (p - j) * pgsize ≡ a + p * pgsize = omega arith in
      subst (λ x. va_avail k x ≡ true) q (w (p - j) (omega arith))

  -- A used page with index `p` rules out the places that begin at or up to `npage - 1` before it.
  no-Window :
      (npage a j p : ℕ)
      → va_avail k (a + p * pgsize) ≡ false
      → j ≤ p
      → p < j + npage
      → ¬ Window k npage (a + j * pgsize)
  no-Window npage a j p used h l w =
      let free : va_avail k (a + p * pgsize) ≡ true = page_of-Window npage a j p w h l in cc

  Window-Stops :
      (npage a : ℕ)
      → va_avail k a ≡ true
      → ((j : ℕ) → 0 < j → j ≤ npage - 1 → va_avail k (a + j * pgsize) ≡ true)
      → Window k npage a
  Window-Stops npage a free above zero h = let q : a + 0 * pgsize ≡ a = omega arith in rw q free
  Window-Stops npage a free above (suc j) h = above (suc j) (omega arith) (omega arith)

  search_past : (npage end rounds a : ℕ) → end < a → vm_search k npage end (suc rounds) a ≡ some 0
  unfolding vm_search
  search_past npage end rounds a h = let t : leb a end ≡ false = ground arith in rw t

  module _ (npage end rounds a : ℕ) (near : leb a end ≡ true) where
    search_used :
        va_avail k a ≡ false
        → a + pgsize < 2 ^ 64
        → vm_search k npage end (suc rounds) a ≡ vm_search k npage end rounds (a + 1 * pgsize)
    unfolding vm_search
    search_used used h =
        let q : u64 (a + pgsize) ≡ a + 1 * pgsize = omega arith in rw (near, used, q)

    search_free :
        va_avail k a ≡ true
        → avail_down k (npage - 1) a ≡ a
        → vm_search k npage end (suc rounds) a ≡ some a
    unfolding vm_search
    search_free free e = let t : ltb a a ≡ false = ground arith in rw (near, free, e, t)

    search_skip :
        (stop : ℕ)
        → va_avail k a ≡ true
        → avail_down k (npage - 1) a ≡ stop
        → a < stop
        → stop + pgsize < 2 ^ 64
        → vm_search k npage end (suc rounds) a ≡ vm_search k npage end rounds (stop + pgsize)
    unfolding vm_search
    search_skip stop free e h l =
        let t : ltb a stop ≡ true = ground arith in
        let q : u64 (stop + pgsize) ≡ stop + pgsize = omega arith in rw (near, free, e, t, q)

  -- Given rounds enough for the pages up to the limit, the search ends, with the lowest place or
  -- with 0 if there is none.
  pub vm_search-Outcome :
      (npage end rounds a : ℕ)
      → 0 < npage
      → end + npage * pgsize < 2 ^ 64
      → end < a + rounds * pgsize
      → (r : ℕ) × (vm_search k npage end (suc rounds) a ≡ some r) × Outcome npage end a r
  vm_search-Outcome npage end zero a pos fits fuel =
      (0, search_past npage end zero a (omega arith), full refl λ j h. absurd (omega arith))
  vm_search-Outcome npage end (suc rounds) a pos fits fuel = elim (Bool-cases (leb a end)) [
    | inr past ↦ (
      0,
      search_past npage end (suc rounds) a (ground arith),
      full refl λ j h. absurd (ground arith),
    )
    | inl near ↦ elim (Bool-cases (va_avail k a)) [
      | inr used ↦
          let used_0 : va_avail k (a + 0 * pgsize) ≡ false =
            (let q : a + 0 * pgsize ≡ a = omega arith in rw q used) in
          let (r, e, out) =
            vm_search-Outcome npage end rounds (a + 1 * pgsize) pos fits (omega arith) in
          (
            r,
            search_used npage end (suc rounds) a near used (ground arith) ∙ e,
            Outcome-skip npage end a r 1
                (λ j h. no-Window npage a j 0 used_0 (omega arith) (omega arith)) out,
          )
      | inl free ↦ elim (avail_down-Stops (npage - 1) a (ground arith)) [
        | inl (e, above) ↦ (
          a,
          search_free npage end (suc rounds) a near free e,
          found 0 (omega arith) (ground arith) (Window-Stops npage a free above)
              (λ j h. absurd (omega arith)),
        )
        | inr (p, p_pos, p_le, e, used) ↦
            let stop : ℕ = avail_down k (npage - 1) a in
            let used_p : va_avail k (a + p * pgsize) ≡ false =
              subst (λ x. va_avail k x ≡ false) e used in
            let q : stop + pgsize ≡ a + (p + 1) * pgsize = omega arith in
            let (r, found_r, out) =
              vm_search-Outcome npage end rounds (a + (p + 1) * pgsize) pos fits (omega arith) in
            (
              r,
              search_skip npage end (suc rounds) a near stop free refl (omega arith) (ground arith)
                  ∙ ap (vm_search k npage end (suc rounds)) q
                  ∙ found_r,
              Outcome-skip npage end a r (p + 1)
                  (λ j h. no-Window npage a j p used_p (omega arith) (omega arith)) out,
            )
      ]
    ]
  ]

vm_alloc_lem :
    (k : Kernel) (npage end r : ℕ)
    → vm_end k npage ≡ end
    → vm_search k npage end (2 ^ 52 + 1) k.current.brk ≡ some r
    → vm_alloc npage k ≡ ok r k
unfolding vm_alloc
vm_alloc_lem k npage end r q e = rw (q, e, vm_alloc)

-- For a request that the address space can hold, `__vm_alloc` returns the lowest place of so many
-- unused pages from the break on, in steps of a page, that ends by `mmap_max`; it returns 0 if there
-- is none; and it changes nothing.
pub vm_alloc-Outcome :
    (k : Kernel) (npage : ℕ)
    → 0 < npage
    → npage * pgsize ≤ k.current.mmap_max
    → k.current.mmap_max < 2 ^ 64
    → Returns
        (λ r k'. (k' ≡ k) × Outcome k npage (k.current.mmap_max - npage * pgsize) k.current.brk r)
        (vm_alloc npage k)
vm_alloc-Outcome k npage pos fits small =
    let end : ℕ = k.current.mmap_max - npage * pgsize in
    let (r, e, out) =
      vm_search-Outcome k npage end (2 ^ 52) k.current.brk pos (omega arith) (omega arith) in
    rw (vm_alloc_lem k npage end r (omega arith) e) (returns (refl, out))
