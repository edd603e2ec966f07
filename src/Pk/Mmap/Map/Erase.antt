-- ===== src/Pk/Mmap/Map/Erase.antt =====
-- `__do_munmap`, seen from the map of pages.
use boom_stop.Base.{
  ℕ, zero, suc, ◌+◌, ◌*◌, ◌/◌, ◌%◌, ◌^◌, ◌≤◌, ◌<◌, ◌≡◌, refl, sym, ◌∙◌, ap, Bool, true, false, ◌&&◌,
  ◌||◌, ◌==◌, leb, ltb, inl, inr, Bool-cases, Option-cases, some, arith, if◌then◌else◌, subst,
}
use boom_stop.Base.Cmd.{Returns, returns, Returns-and_then, Returns-mono}
use boom_stop.Pk.Frontend.{Host}
use boom_stop.Pk.File.{Io}
use boom_stop.Pk.Mmap.State.{
  Kernel, Vmr, pgsize, vmr_index, set_word, lock, spinlock_unlock, spinlock_lock_free,
}
use boom_stop.Pk.Mmap.Prot.{valid_user_range}
use boom_stop.Pk.Mmap.Walk.{walk, walk_from, is_valid, pte_at}
use boom_stop.Pk.Mmap.Walk.Store.{same_page, value_of, same_page_walk}
use boom_stop.Pk.Mmap.Walk.Create.{Pool, pte_at_lem}
use boom_stop.Pk.Mmap.Walk.Keep.{store-Pool, set_word_pages, set_word_walk, walk-leaf}
use boom_stop.Pk.Mmap.Fault.Demand.{vmr_decref-Released}
use boom_stop.Pk.Mmap.Map.{
  unmap_page, unmap_pages, munmap_locked, page_rounds, do_munmap, bad_range,
}

-- Only regions, files and page tables differ.
abbrev pub SameBut : Kernel → Kernel → Type 0
SameBut k k' = k' ≡ record k { io = k'.io; vmr = k'.vmr; mem = k'.mem }

-- The page of `a` is one of the `rounds` pages from `start` on.
abbrev pub covers : (rounds start a : ℕ) → Bool
covers zero start a = false
covers (suc rounds) start a = same_page start a || covers rounds (start + pgsize) a

-- The pages that `gone` names have no entry, and the others have the ones that they had.
pub record Erased (level up : ℕ → ℕ) (gone : ℕ → Bool) (k k' : Kernel) : Type 0 where
  pub pool : Pool level up k'
  pub pages : (b : ℕ) → pte_at k' b ≡ (if gone b then 0 else pte_at k b)
  pub walks :
      (b : ℕ) → walk_from k'.mem k'.root_page_table b 2 ≡ walk_from k.mem k.root_page_table b 2
  pub rest : SameBut k k'

pub same_page_pte : (k : Kernel) (a b : ℕ) → same_page a b ≡ true → pte_at k b ≡ pte_at k a
same_page_pte k a b s =
    pte_at_lem k b
    ∙ ap (λ w. value_of k.mem w) (sym (same_page_walk k.mem k.root_page_table a b s))
    ∙ sym (pte_at_lem k a)

nothing-Erased :
    (level up : ℕ → ℕ) (a : ℕ) (k : Kernel)
    → Pool level up k
    → pte_at k a ≡ 0
    → Erased level up (same_page a) k k
nothing-Erased level up a k pool z = record {
  pool = pool;
  pages = λ b. elim (Bool-cases (same_page a b)) [
    | inl s ↦ rw s (same_page_pte k a b s ∙ z)
    | inr d ↦ rw d refl
  ];
  walks = λ b. refl;
  rest = refl;
}

-- The entry is cleared after the region is given back.
clear-Erased :
    (level up : ℕ → ℕ) (a pte : ℕ) (k : Kernel) (io : Io) (vmr : ℕ → Vmr)
    → Pool level up k
    → walk k a ≡ some pte
    → Erased level up (same_page a) k (set_word pte 0 (record k { io = io; vmr = vmr }))
clear-Erased level up a pte k io vmr pool e =
    let k1 : Kernel = record k { io = io; vmr = vmr } in
    let pool1 : Pool level up k1 = record {
      tree = pool.tree;
      fits = pool.fits;
      positive = pool.positive;
    } in
    let w = walk-leaf k a pte e in
    record {
      pool = store-Pool a pte 0 k1 level up pool1 w;
      pages = λ b.
          (let q : pte_at k1 b ≡ pte_at k b = pte_at_lem k1 b ∙ sym (pte_at_lem k b) in
            set_word_pages a pte 0 b k1 level up pool1 w ∙ rw q refl);
      walks = λ b. set_word_walk a pte 0 b k1 level up pool1 w;
      rest = refl;
    }

pub SameBut-trans : (k k1 k2 : Kernel) → SameBut k k1 → SameBut k1 k2 → SameBut k k2
SameBut-trans k k1 k2 s t =
    t ∙ ap {A = Kernel} {B = Kernel} (λ x. record x { io = k2.io; vmr = k2.vmr; mem = k2.mem }) s

pub both_entries :
    (s c : Bool) (v p p1 p2 : ℕ)
    → p2 ≡ (if c then v else p1)
    → p1 ≡ (if s then v else p)
    → p2 ≡ (if s || c then v else p)
both_entries true true v p p1 p2 e f = e
both_entries true false v p p1 p2 e f = e ∙ f
both_entries false true v p p1 p2 e f = e
both_entries false false v p p1 p2 e f = e ∙ f

module _ (host : Host) (level up : ℕ → ℕ) where
  unmap_page-Erased :
      (a : ℕ) (k : Kernel)
      → Pool level up k
      → Returns (λ _ k'. Erased level up (same_page a) k k') (unmap_page host a k)
  unfolding unmap_page
  unmap_page-Erased a k pool = elim (Option-cases (walk k a)) [
    | inl e ↦ rw (e, unmap_page) (returns (nothing-Erased level up a k pool (rw (e, pte_at) refl)))
    | inr (pte, e) ↦ elim (Bool-cases (k.mem pte == 0)) [
      | inl t ↦
          rw (e, unmap_page, t)
            (returns (nothing-Erased level up a k pool (rw (e, pte_at) (ground arith))))
      | inr t ↦ elim (Bool-cases (is_valid (k.mem pte))) [
        | inl v ↦
            rw (e, unmap_page, t, v) (returns (clear-Erased level up a pte k k.io k.vmr pool e))
        | inr v ↦
            rw (e, unmap_page, t, v)
              (Returns-and_then (vmr_decref-Released host (vmr_index k (k.mem pte)) k) λ _ k1 r.
                returns (
                  subst (λ x. Erased level up (same_page a) k (set_word pte 0 x)) (sym r.rest)
                    (clear-Erased level up a pte k k1.io k1.vmr pool e)))
      ]
    ]
  ]

  unmap_pages-Erased :
      (rounds a : ℕ) (k : Kernel)
      → Pool level up k
      → Returns (λ _ k'. Erased level up (covers rounds a) k k') (unmap_pages host rounds a k)
  unfolding unmap_pages
  unmap_pages-Erased zero a k pool =
      returns (record { pool = pool; pages = λ b. refl; walks = λ b. refl; rest = refl })
  unmap_pages-Erased (suc rounds) a k pool = Returns-and_then (unmap_page-Erased a k pool) λ _ k1 s.
      Returns-mono (unmap_pages-Erased rounds (a + pgsize) k1 s.pool) λ _ k2 t. record {
        pool = t.pool;
        pages = λ b.
            both_entries (same_page a b) (covers rounds (a + pgsize) b) 0 (pte_at k b) (pte_at k1 b)
              (pte_at k2 b) (t.pages b) (s.pages b);
        walks = λ b. t.walks b ∙ s.walks b;
        rest = SameBut-trans k k1 k2 s.rest t.rest;
      }

  pub munmap_locked-Erased :
      (addr len : ℕ) (k : Kernel)
      → Pool level up k
      → Returns
          (λ _ k'. Erased level up (covers (page_rounds addr len) addr) k k')
          (munmap_locked host addr len k)
  unfolding munmap_locked
  munmap_locked-Erased addr len k pool = unmap_pages-Erased (page_rounds addr len) addr k pool

-- The pages from `start` on that are covered, as a range, where the range lies in the 2 ^ 39 bytes that
-- the page tables can name.
pub covers-range :
    (rounds start b : ℕ)
    → start % 4096 ≡ 0
    → start + rounds * 4096 ≤ 2 ^ 39
    → b < 2 ^ 39
    → covers rounds start b ≡ (leb start b && ltb b (start + rounds * 4096))
covers-range zero start b aligned fits small = ground arith
covers-range (suc rounds) start b aligned fits small =
    let ih = covers-range rounds (start + 4096) b (omega arith) (omega arith) small in
    let one : same_page start b ≡ (leb start b && ltb b (start + 4096)) =
      (let p : start / 4096 % 2 ^ 27 ≡ start / 4096 = omega arith in
        let q : b / 4096 % 2 ^ 27 ≡ b / 4096 = omega arith in rw (p, q) (ground arith)) in
    rw (ih, one) (ground arith)

-- The address is in one of the pages from `addr` on that `len` bytes touch.
abbrev pub touches : (addr len b : ℕ) → Bool
touches addr len b = leb addr b && ltb b (addr + (len + 4095) / 4096 * 4096)

pub pte_at-lock : (b : Bool) (k : Kernel) (a : ℕ) → pte_at (lock b k) a ≡ pte_at k a
pte_at-lock b k a = pte_at_lem (lock b k) a ∙ sym (pte_at_lem k a)

pub lock-Pool :
    {level up : ℕ → ℕ} (b : Bool) (k : Kernel) → Pool level up k → Pool level up (lock b k)
lock-Pool b k pool = record { tree = pool.tree; fits = pool.fits; positive = pool.positive }

-- What is unchanged between the taking and the giving back of the lock is unchanged from before.
SameBut-lock :
    (k k1 : Kernel) → k.vm_lock ≡ false → SameBut (lock true k) k1 → SameBut k (lock false k1)
SameBut-lock k k1 free s =
    ap (lock false) s
    ∙ ap {A = Bool} {B = Kernel} (λ b. record (lock b k) { io = k1.io; vmr = k1.vmr; mem = k1.mem })
        (sym free)

pub page_rounds-touches :
    (addr len b : ℕ)
    → addr % 4096 ≡ 0
    → addr + len ≤ 2 ^ 38
    → b < 2 ^ 39
    → covers (page_rounds addr len) addr b ≡ touches addr len b
page_rounds-touches addr len b aligned small b_small =
    let r : page_rounds addr len ≡ (len + 4095) / 4096 = ground arith in
    rw r (covers-range ((len + 4095) / 4096) addr b aligned (omega arith) b_small)

-- With the lock free and page tables that are a tree, `do_munmap` of a range at a page-aligned address
-- that ends by mmap_max, which is at most 2 ^ 38, returns 0: as a map from pages to entries, exactly the
-- pages of the range lose their entry; the page tables are a tree still, the lock is free, and nothing
-- else is changed but regions and files.
pub do_munmap-Erased :
    (host : Host) (level up : ℕ → ℕ) (addr len : ℕ) (k : Kernel)
    → Pool level up k
    → k.vm_lock ≡ false
    → addr % 4096 ≡ 0
    → addr + len < 2 ^ 64
    → addr + len ≤ k.current.mmap_max
    → k.current.mmap_max ≤ 2 ^ 38
    → Returns
        (λ r k'.
          (r ≡ 0)
          × Pool level up k'
          × ((b : ℕ) → b < 2 ^ 39 → pte_at k' b ≡ (if touches addr len b then 0 else pte_at k b))
          × SameBut k k')
        (do_munmap host addr len k)
unfolding do_munmap valid_user_range spinlock_unlock
do_munmap-Erased host level up addr len k pool free aligned fits below top =
    let bad : bad_range k addr len ≡ false = ground arith in
    rw (bad, spinlock_lock_free k free)
      (Returns-and_then
        (munmap_locked-Erased host level up addr len (lock true k) (lock-Pool true k pool))
        λ _ k1 e. returns (
          refl,
          lock-Pool false k1 e.pool,
          λ b small.
              pte_at-lock false k1 b
              ∙ e.pages b
              ∙ rw
                  (pte_at-lock true k b, page_rounds-touches addr len b aligned (omega arith) small)
                  refl,
          SameBut-lock k k1 free e.rest,
        ))
