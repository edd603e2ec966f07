-- ===== src/Pk/Mmap/Pages/Reuse.antt =====
-- `__page_alloc1` scales the index of the first page by 100 and then counts on from the index: the
-- pages of the table of regions are handed out a second time.
use boom_stop.Base.{
  ℕ, zero, suc, ◌+◌, ◌*◌, ◌-◌, ◌<◌, ◌≤◌, ◌≡◌, refl, ◌≢◌, false, arith, ◌==◌, subst,
}
use boom_stop.Base.Cmd.{
  Cmd, ok, pure, ◌>>=◌, ◌>>◌, Returns, returns, Returns-and_then, Returns-mono, Returns-Ensures,
  Ensures,
}
use boom_stop.Pk.Mmap.State.{Kernel}
use boom_stop.Pk.Mmap.Pages.{page_addr, page_alloc, page_alloc1, take_page}

-- `n` pages in turn.
unfoldable pub alloc_times : ℕ → Cmd Kernel (Unit {0})
alloc_times zero = pure tt
alloc_times (suc n) = do _ ← page_alloc; alloc_times n

page_alloc_lem :
    (k : Kernel)
    → k.next_free_page ≢ k.free_pages
    → page_alloc k ≡ ok (page_addr k k.next_free_page) (take_page k)
unfolding page_alloc
page_alloc_lem k ne = let t : (k.next_free_page == k.free_pages) ≡ false = ground arith in rw t

-- The state after `n` allocations, as far as the next ones depend on it.
pub record Allocated (n : ℕ) (k k' : Kernel) : Type 0 where
  pub next : k'.next_free_page ≡ k.next_free_page + n
  pub same_first : k'.first_free_page ≡ k.first_free_page
  pub same_free : k'.free_pages ≡ k.free_pages

alloc_times-Allocated :
    (n : ℕ) (k : Kernel)
    → k.next_free_page + n ≤ k.free_pages
    → Returns (λ _ k'. Allocated n k k') (alloc_times n k)
unfolding alloc_times
alloc_times-Allocated zero k h =
    returns (record { next = omega arith; same_first = refl; same_free = refl })
alloc_times-Allocated (suc n) k h = rw (page_alloc_lem k (λ e. omega arith)) (
    Returns-mono (alloc_times-Allocated n (take_page k) (omega arith)) λ _ k' a. record {
      next = omega (arith, a.next);
      same_first = a.same_first;
      same_free = a.same_free;
    })

page_alloc1_lem :
    (k : Kernel)
    → k.next_free_page ≢ k.free_pages
    → Returns
        (λ a k1. (a ≡ page_addr k (100 * k.next_free_page)) × Allocated 100 k k1)
        (page_alloc1 k)
unfolding page_alloc1
page_alloc1_lem k ne =
    let t : (k.next_free_page == k.free_pages) ≡ false = ground arith in
    rw t (returns (refl, record { next = refl; same_first = refl; same_free = refl }))

-- If the table of regions is made when `next_free_page` is at least 2, and the kernel has more than
-- 100 times as many pages, then after that many more allocations as lie between, the next
-- `__page_alloc` succeeds and returns the first page of the table.
pub page_alloc1_reused :
    (k k1 : Kernel) (a : ℕ)
    → page_alloc1 k ≡ ok a k1
    → 2 ≤ k.next_free_page
    → 100 * k.next_free_page < k.free_pages
    → Returns (λ b _. b ≡ a) ((alloc_times (99 * k.next_free_page - 100) >> page_alloc) k1)
page_alloc1_reused k k1 a e two more =
    let (addr, start) : (a ≡ page_addr k (100 * k.next_free_page)) × Allocated 100 k k1 =
      subst (Ensures (λ a k1. (a ≡ page_addr k (100 * k.next_free_page)) × Allocated 100 k k1)) e
        (Returns-Ensures (page_alloc1_lem k (λ q. omega arith))) in
    Returns-and_then
      (alloc_times-Allocated (99 * k.next_free_page - 100) k1
        (omega (arith, start.next, start.same_free)))
      λ _ k2 d.
        let at : k2.next_free_page ≡ 100 * k.next_free_page = omega (arith, d.next, start.next) in
        rw (page_alloc_lem k2 (λ q. omega (arith, at, d.same_free, start.same_free)))
          (returns (ground (arith, addr, at, d.same_first, start.same_first)))
