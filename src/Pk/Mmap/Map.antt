-- ===== src/Pk/Mmap/Map.antt =====
-- Regions of the program's address space: mmap, munmap and brk.
pub mod Search
pub mod Erase
pub mod Enter
pub mod Region
pub mod Fixed
use boom_stop.Base.{
  ℕ, zero, suc, ◌+◌, ◌*◌, ◌/◌, ◌%◌, ◌-◌, ◌^◌, Bool, true, false, not, ◌&&◌, ◌||◌, Option, none,
  some, ltb, leb, ◌==◌, if◌then◌else◌, u64, sub64, neg, is_neg,
}
use boom_stop.Base.Cmd.{Cmd, ok, panic, halt, pure, kassert, modify, ◌>>=◌, ◌>>◌}
use boom_stop.Pk.Frontend.{Host, einval, ebadf, enosys}
use boom_stop.Pk.File.{Io, file_get, file_decref}
use boom_stop.Pk.Mmap.State.{
  Vmr, Kernel, Current, pgsize, vmr_index, vmr_ptr, set_word, on_io, spinlock_lock, spinlock_unlock,
}
use boom_stop.Pk.Mmap.Pages.{vmr_alloc, vmr_decref}
use boom_stop.Pk.Mmap.Walk.{walk, walk_create, is_valid, va_avail, has_bit}
use boom_stop.Pk.Mmap.Prot.{valid_user_range}
use boom_stop.Pk.Mmap.Fault.{fault_locked}

-- The rounds of `for (a = addr; a < addr + len; a += RISCV_PGSIZE)`: none where the sum wraps.
abbrev pub page_rounds : (addr len : ℕ) → ℕ
page_rounds addr len = if ltb (addr + len) (2 ^ 64) then (len + (pgsize - 1)) / pgsize else 0

-- The body of the loop of `__do_munmap`.
unfoldable pub unmap_page : Host → ℕ → Cmd Kernel (Unit {0})
unmap_page host a k = elim (walk k a) [
  | none ↦ ok tt k
  | some pte ↦
      if k.mem pte == 0
      then ok tt k
      else ((do
        (if is_valid (k.mem pte) then pure tt else vmr_decref host (vmr_index k (k.mem pte)) 1)
        modify (set_word pte 0))
          k)
]

unfoldable pub unmap_pages : Host → (rounds a : ℕ) → Cmd Kernel (Unit {0})
unmap_pages host zero a = pure tt
unmap_pages host (suc rounds) a = do unmap_page host a; unmap_pages host rounds (a + pgsize)

-- `__do_munmap`
unfoldable pub munmap_locked : Host → (addr len : ℕ) → Cmd Kernel (Unit {0})
munmap_locked host addr len = unmap_pages host (page_rounds addr len) addr

-- addr & (RISCV_PGSIZE - 1)
abbrev pub page_offset : ℕ → ℕ
page_offset addr = addr % pgsize

abbrev pub bad_range : Kernel → (addr len : ℕ) → Bool
bad_range k addr len = not (page_offset addr == 0) || not (valid_user_range k addr len)

unfoldable pub do_munmap : Host → (addr length : ℕ) → Cmd Kernel ℕ
do_munmap host addr length k =
    if bad_range k addr length
    then ok (neg einval) k
    else (do spinlock_lock; munmap_locked host addr length; spinlock_unlock; pure 0) k

-- The inner loop of `__vm_alloc`: from the last of the pages above `first` down, to the first page
-- that is taken, or to `first`.
unfoldable pub avail_down : Kernel → (above first : ℕ) → ℕ
avail_down k zero first = first
avail_down k (suc above) first =
    let a = u64 (first + suc above * pgsize) in
    let lower = avail_down k above first in
    if not (ltb first a) then a else if va_avail k a then lower else a

-- The outer loop. A loop that has not ended after `rounds` rounds is one that never does.
unfoldable pub vm_search : Kernel → (npage end rounds a : ℕ) → Option ℕ
unfolding avail_down
vm_search k npage end zero a = none
vm_search k npage end (suc rounds) a =
    let stop = avail_down k (npage - 1) a in
    let next = if va_avail k a then u64 (stop + pgsize) else u64 (a + pgsize) in
    let rest = vm_search k npage end rounds next in
    if leb a end then (if va_avail k a && not (ltb a stop) then some stop else rest) else some 0

abbrev pub vm_end : Kernel → ℕ → ℕ
vm_end k npage = sub64 k.current.mmap_max (u64 (npage * pgsize))

unfoldable pub vm_alloc : ℕ → Cmd Kernel ℕ
vm_alloc npage k = elim (vm_search k npage (vm_end k npage) (2 ^ 52 + 1) k.current.brk) [
  | none ↦ panic
  | some a ↦ ok a k
]

-- The body of the loop of `__do_mmap`, for region `v`.
unfoldable pub map_page : Host → (v a : ℕ) → Cmd Kernel (Unit {0})
map_page host v a = do
  pte ← walk_create a
  kassert (not (pte == 0))
  λ k. (if k.mem pte == 0 then pure tt else munmap_locked host a pgsize) k
  modify (λ k. set_word pte (vmr_ptr k v) k)

unfoldable pub map_pages : Host → (v rounds a : ℕ) → Cmd Kernel (Unit {0})
map_pages host v zero a = pure tt
map_pages host v (suc rounds) a = do map_page host v a; map_pages host v rounds (a + pgsize)

unfoldable pub populate_pages : Host → (prot rounds a : ℕ) → Cmd Kernel (Unit {0})
populate_pages host prot zero a = pure tt
populate_pages host prot (suc rounds) a = do
  ret ← fault_locked host a prot
  kassert (ret == 0)
  populate_pages host prot rounds (a + pgsize)

-- The part of `__do_mmap` after the region is made.
unfoldable pub map_region : Host → (addr length prot flags i : ℕ) → Cmd Kernel ℕ
map_region host addr length prot flags i = do
  map_pages host i (page_rounds addr length) addr
  λ k.
      (if not k.demand_paging || has_bit 15 flags
          then populate_pages host prot (page_rounds addr length) addr
          else pure tt)
        k
  pure addr

-- The part of `__do_mmap` after the choice of the address.
unfoldable pub map_at :
    Host → (addr length npage prot flags : ℕ) (file : Option ℕ) (offset : ℕ) → Cmd Kernel ℕ
map_at host addr length npage prot flags file offset = do
  v ← vmr_alloc addr length file offset npage prot
  elim v [ none ↦ pure (neg 1) | some i ↦ map_region host addr length prot flags i ]

abbrev pub page_count : ℕ → ℕ
page_count length = sub64 length 1 / pgsize + 1

-- `__do_mmap`. MAP_FIXED is bit 4 of the flags, MAP_POPULATE bit 15.
unfoldable pub mmap_locked :
    Host → (addr length prot flags : ℕ) (file : Option ℕ) (offset : ℕ) → Cmd Kernel ℕ
mmap_locked host addr length prot flags file offset k =
    let npage = page_count length in
    if has_bit 4 flags
    then (if bad_range k addr length
        then ok (neg 1) k
        else map_at host addr length npage prot flags file offset k)
    else ((do
      found ← vm_alloc npage
      if found == 0 then pure (neg 1) else map_at host found length npage prot flags file offset)
        k)

unfoldable pub put_opt : Host → Option ℕ → ℕ → Cmd Kernel ℕ
put_opt host none r = pure r
put_opt host (some f) r = do on_io (file_decref host f); pure r

unfoldable pub lower_brk_max : ℕ → Kernel → Kernel
lower_brk_max addr k =
    if ltb addr k.current.brk_max
    then record k { current = record (k.current) { brk_max = addr } }
    else k

-- The part of `do_mmap` after the file is found.
unfoldable pub mmap_file :
    Host → (addr length prot flags : ℕ) (file : Option ℕ) (offset : ℕ) → Cmd Kernel ℕ
mmap_file host addr length prot flags file offset = do
  spinlock_lock
  ret ← mmap_locked host addr length prot flags file offset
  modify (lower_brk_max ret)
  spinlock_unlock
  put_opt host file ret

-- MAP_PRIVATE is bit 1 of the flags, MAP_ANONYMOUS bit 5.
unfoldable pub do_mmap : Host → (addr length prot flags fd offset : ℕ) → Cmd Kernel ℕ
do_mmap host addr length prot flags fd offset =
    if not (has_bit 1 flags) || length == 0 || not (page_offset offset == 0)
    then pure (neg einval)
    else if has_bit 5 flags
    then mmap_file host addr length prot flags none offset
    else do
      f ← on_io (file_get fd)
      elim f [
        | none ↦ pure (neg ebadf)
        | some i ↦ mmap_file host addr length prot flags (some i) offset
      ]

unfoldable pub do_mremap : (addr old_size new_size flags : ℕ) → Cmd Kernel ℕ
do_mremap addr old_size new_size flags = pure (neg enosys)
