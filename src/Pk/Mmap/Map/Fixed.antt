-- ===== src/Pk/Mmap/Map/Fixed.antt =====
-- `do_mmap` of an anonymous range at a fixed address.
use boom_stop.Base.{
  ℕ, ◌+◌, ◌*◌, ◌/◌, ◌%◌, u32, ==_self, ◌^◌, ◌≤◌, ◌<◌, ◌≡◌, ◌≢◌, refl, sym, ◌∙◌, ap, true, false,
  not, ◌&&◌, ◌||◌, ◌==◌, ltb, inl, inr, Bool-cases, Option, none, some, Found, neg, arith,
  if◌then◌else◌,
}
use boom_stop.Base.Cmd.{Cmd, pure, Returns, returns, Returns-and_then, Returns-both}
use boom_stop.Pk.Frontend.{Host}
use boom_stop.Pk.Mmap.State.{
  Kernel, Vmr, Current, vmr_ptr, max_vmr, set_vmr, lock, spinlock_lock_free, spinlock_unlock,
}
use boom_stop.Pk.Mmap.Pages.{is_free_vmr}
use boom_stop.Pk.Mmap.Pages.Take.{Taken, taken, all_used, vmr_alloc-Taken}
use boom_stop.Pk.Mmap.Prot.{valid_user_range}
use boom_stop.Pk.Mmap.Walk.{has_bit, pte_at}
use boom_stop.Pk.Mmap.Walk.Create.{Pool, Unshared, pte_at_lem}
use boom_stop.Pk.Mmap.Map.{
  do_mmap, mmap_file, mmap_locked, map_at, map_region, page_rounds, page_offset, page_count,
  bad_range, lower_brk_max, put_opt,
}
use boom_stop.Pk.Mmap.Map.Erase.{covers, touches, page_rounds-touches, pte_at-lock, lock-Pool}
use boom_stop.Pk.Mmap.Map.Enter.{Grown, map_pages-Entered}
use boom_stop.Pk.Mmap.Map.Region.{points, map_pages-Keeps, live, live-points}

-- The region of a mapping, with the number of its pages.
abbrev pub region_for : (addr length prot offset : ℕ) → Vmr
region_for addr length prot offset = record {
  addr = addr;
  length = length;
  file = none;
  offset = offset;
  refcnt = (length + 4095) / 4096;
  prot = prot;
}

-- The first region that was free is the new one, and the pages of the range have it for an entry, and
-- all others the ones
-- that they had, or no region was free and nothing is changed.
pub data Mapped (addr length prot offset : ℕ) (k : Kernel) : ℕ → Kernel → Type 0 where
  mapped :
      (i : ℕ) (k' : Kernel) (level up : ℕ → ℕ)
      → Found (is_free_vmr k) 0 max_vmr i
      → Pool level up k'
      → ((b : ℕ)
          → b < 2 ^ 39
          → pte_at k' b ≡ (if touches addr length b then vmr_ptr k i else pte_at k b))
      → k'.vmr i ≡ region_for addr length prot offset
      → k'.current ≡ record (k.current) {
        brk_max = (if ltb addr k.current.brk_max then addr else k.current.brk_max);
      }
      → k'.byte ≡ k.byte
      → Mapped addr length prot offset k addr k'
  full :
      (k' : Kernel)
      → ((i : ℕ) → i < max_vmr → is_free_vmr k i ≡ false)
      → k' ≡ k
      → Mapped addr length prot offset k (neg 1) k'

-- The same of the part under the lock.
data Put (addr length : ℕ) (v : Vmr) (k : Kernel) : ℕ → Kernel → Type 0 where
  put :
      (i : ℕ) (k' : Kernel) (level up : ℕ → ℕ)
      → Found (is_free_vmr k) 0 max_vmr i
      → Pool level up k'
      → ((b : ℕ)
          → pte_at k' b
            ≡ (if covers (page_rounds addr length) addr b then vmr_ptr k i else pte_at k b))
      → k'.vmr i ≡ v
      → Grown k k'
      → Put addr length v k addr k'
  none_free : ((i : ℕ) → i < max_vmr → is_free_vmr k i ≡ false) → Put addr length v k (neg 1) k

module _ (host : Host) (addr length prot flags : ℕ) (unpopulated : has_bit 15 flags ≡ false)
    (top : addr + page_rounds addr length * 4096 ≤ 2 ^ 39) where
  -- The entries of the range name regions in use.
  abbrev InUse : Kernel → Type 0
  InUse k = (j : ℕ) → j < page_rounds addr length → live k (pte_at k (addr + j * 4096)) ≡ true

  -- After the region is taken.
  map_region-Put :
      (v : Vmr) (k : Kernel) (level up : ℕ → ℕ) (o : Option ℕ) (k1 : Kernel)
      → v.file ≡ none
      → Pool level up k
      → InUse k
      → k.next_free_page + 2 * page_rounds addr length ≤ k.free_pages
      → Unshared (2 * page_rounds addr length) k
      → k.demand_paging ≡ true
      → Taken v k o k1
      → Returns (Put addr length v k) (
          (elim o as (λ _. Cmd Kernel ℕ) [
            | none ↦ pure (neg 1)
            | some i ↦ map_region host addr length prot flags i
          ])
            k1)
  unfolding map_region
  map_region-Put v k level up none k1 anon pool in_use room unshared lazy (all_used used) =
      returns (none_free used)
  map_region-Put v k level up (some _) k1 anon pool in_use room unshared lazy (taken i found) =
      let n : Kernel = set_vmr i (record v { file = none }) k in
      rw anon (
        let pool1 : Pool level up n = record {
          tree = pool.tree;
          fits = pool.fits;
          positive = pool.positive;
        } in
        let clear : (j : ℕ)
            → j < page_rounds addr length
            → points i n.vmrs (pte_at n (addr + j * 4096)) ≡ false =
          (λ j l.
            ap (points i k.vmrs)
              (pte_at_lem n (addr + j * 4096) ∙ sym (pte_at_lem k (addr + j * 4096)))
            ∙ live-points k i (pte_at k (addr + j * 4096)) found.passes (in_use j l)) in
        let made : n.vmr i ≡ record v { file = none } = rw (==_self i) refl in
        Returns-and_then
          (Returns-both
            (map_pages-Entered host i (page_rounds addr length) addr n level up pool1 room unshared)
            (map_pages-Keeps host i (page_rounds addr length) addr n level up pool1 room unshared
              top clear))
          λ _ k2 (e, keeps).
            let d : k2.demand_paging ≡ true = ap (λ x. x.demand_paging) e.rest ∙ lazy in
            let skip : (not k2.demand_paging || has_bit 15 flags) ≡ false =
              rw (d, unpopulated) refl in
            rw skip (
              returns (
                put i k2 e.level e.up found e.pool
                  (λ b.
                    let same : pte_at n b ≡ pte_at k b = pte_at_lem n b ∙ sym (pte_at_lem k b) in
                    e.pages b ∙ rw same refl)
                  (keeps ∙ made) e.rest)))

  map_at-Put :
      (npage offset : ℕ) (k : Kernel) (level up : ℕ → ℕ)
      → Pool level up k
      → InUse k
      → k.vmrs ≢ 0
      → k.next_free_page + 2 * page_rounds addr length ≤ k.free_pages
      → Unshared (2 * page_rounds addr length) k
      → k.demand_paging ≡ true
      → Returns
          (Put addr length
            (record {
              addr = addr;
              length = length;
              file = none;
              offset = offset;
              refcnt = u32 npage;
              prot = prot;
            })
            k)
          (map_at host addr length npage prot flags none offset k)
  unfolding map_at
  map_at-Put npage offset k level up pool in_use made room unshared lazy =
      Returns-and_then (vmr_alloc-Taken addr length none offset npage prot k made (λ f e. cc))
        λ o k1 t. map_region-Put _ k level up o k1 refl pool in_use room unshared lazy t

-- `current` with a lower end of the heap.
abbrev lowered : ℕ → Current → Current
lowered r c = record c { brk_max = if ltb r c.brk_max then r else c.brk_max }

lower_brk_max_lem :
    (r : ℕ) (k : Kernel) → lower_brk_max r k ≡ record k { current = lowered r k.current }
unfolding lower_brk_max
lower_brk_max_lem r k = elim (Bool-cases (ltb r k.current.brk_max)) [
  | inl t ↦ rw t refl
  | inr t ↦ rw t refl
]

-- The end of `do_mmap`, after the part under the lock.
finish :
    (addr length prot offset r : ℕ) (v : Vmr) (k k1 : Kernel)
    → Put addr length v (lock true k) r k1
    → v ≡ region_for addr length prot offset
    → k.vm_lock ≡ false
    → k.current.brk_max < 2 ^ 64
    → addr % 4096 ≡ 0
    → addr + length ≤ 2 ^ 38
    → Mapped addr length prot offset k r (lock false (lower_brk_max r k1))
finish addr length prot offset r v k k1 (put i _ level up found pool pages region rest) new free
      small aligned top =
    let k2 : Kernel = record k1 { current = lowered addr k1.current; vm_lock = false } in
    rw (lower_brk_max_lem addr k1) (
      mapped i k2 level up found
        (record { tree = pool.tree; fits = pool.fits; positive = pool.positive })
        (λ b low.
          let same : pte_at k2 b ≡ pte_at k1 b = pte_at_lem k2 b ∙ sym (pte_at_lem k1 b) in
          same
          ∙ pages b
          ∙ rw (pte_at-lock true k b, page_rounds-touches addr length b aligned top low) refl)
        (region ∙ new) (ap (λ x. lowered addr x.current) rest) (ap (λ x. x.byte) rest))
finish addr length prot offset r v k k1 (none_free used) new free small aligned top = full _ used (
    rw (lower_brk_max_lem (neg 1) (lock true k)) (
      let not_below : ltb (neg 1) k.current.brk_max ≡ false = ground arith in
      rw (not_below, free) refl))

-- With a free lock, page tables that are a tree, the table of regions made, two free pages for each
-- page of the range, the table apart from these and from the pages that are handed out, the entries of
-- the range that are not filled yet naming regions in use, pages that are filled on demand and a 64-bit
-- brk_max, do_mmap of an anonymous, private, fixed range that is not empty and not to be populated, at a
-- page-aligned address with a page-aligned offset, below mmap_max and 2 ^ 38, either makes the first
-- region that was free one for the request, with a reference for each page, gives it the pages of the
-- range, leaves the entries of all other pages, the program's bytes and, but for a brk_max that is
-- lowered to the address, current, and returns the address; or no region is free, nothing is changed and
-- it returns -1. The page tables are a tree and the lock is free.
pub do_mmap-Mapped :
    (host : Host) (level up : ℕ → ℕ) (addr length prot flags fd offset : ℕ) (k : Kernel)
    → Pool level up k
    → k.vm_lock ≡ false
    → k.current.brk_max < 2 ^ 64
    → k.vmrs ≢ 0
    → k.demand_paging ≡ true
    → k.next_free_page + 2 * page_rounds addr length ≤ k.free_pages
    → Unshared (2 * page_rounds addr length) k
    → ((j : ℕ) → j * 4096 < length → live k (pte_at k (addr + j * 4096)) ≡ true)
    → (has_bit 1 flags && has_bit 4 flags && has_bit 5 flags && not (has_bit 15 flags)) ≡ true
    → length ≢ 0
    → offset % 4096 ≡ 0
    → addr % 4096 ≡ 0
    → addr + length ≤ k.current.mmap_max
    → k.current.mmap_max ≤ 2 ^ 38
    → Returns
        (λ r k'. Mapped addr length prot offset k r k' × (k'.vm_lock ≡ false))
        (do_mmap host addr length prot flags fd offset k)
unfolding do_mmap mmap_file mmap_locked put_opt valid_user_range spinlock_unlock
do_mmap-Mapped host level up addr length prot flags fd offset k pool free small made lazy room
      unshared in_use bits some_bytes off aligned below top =
    let bad : bad_range k addr length ≡ false = ground arith in
    let b1 : has_bit 1 flags ≡ true = ground arith in
    let b4 : has_bit 4 flags ≡ true = ground arith in
    let b5 : has_bit 5 flags ≡ true = ground arith in
    let b15 : has_bit 15 flags ≡ false = ground arith in
    let z : (length == 0) ≡ false = ground arith in
    let o : (page_offset offset == 0) ≡ true = ground arith in
    let rounds : page_rounds addr length ≡ (length + 4095) / 4096 = ground arith in
    let count : u32 (page_count length) ≡ (length + 4095) / 4096 = ground arith in
    let locked : (j : ℕ)
        → j < page_rounds addr length
        → live (lock true k) (pte_at (lock true k) (addr + j * 4096)) ≡ true =
      (λ j l.
        ap (live k) (pte_at-lock true k (addr + j * 4096)) ∙ in_use j (omega (arith, rounds, l))) in
    rw (b1, z, o, b5, spinlock_lock_free k free, b4, bad)
      (Returns-and_then
        (map_at-Put host addr length prot flags b15 (omega (arith, rounds)) (page_count length)
          offset (lock true k) level up (lock-Pool true k pool) locked made room unshared lazy)
        λ _ k1 e. returns (
          finish addr length prot offset _ _ k k1 e
              (ap (λ n. record (region_for addr length prot offset) { refcnt = n }) count) free
              small aligned (omega arith),
          refl,
        ))
