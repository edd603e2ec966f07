-- ===== src/Pk/Mmap/Pages.antt =====
-- Pages for the kernel's own tables, and the table of mapped regions.
pub mod Reuse
pub mod Take
use boom_stop.Base.{
  ℕ, ◌+◌, ◌*◌, ◌-◌, ◌^◌, Bool, true, false, not, Option, none, some, ◌==◌, if◌then◌else◌, u32, u64,
  find_from,
}
use boom_stop.Base.Cmd.{Cmd, ok, panic, pure, kassert, ◌>>=◌, ◌>>◌}
use boom_stop.Pk.Frontend.{Host}
use boom_stop.Pk.File.{Io, file_incref, file_decref}
use boom_stop.Pk.Mmap.State.{
  Vmr, Kernel, pgsize, max_vmr, set_vmr, zero_words, on_io, spinlock_lock, spinlock_unlock,
}

abbrev pub page_addr : Kernel → ℕ → ℕ
page_addr k n = u64 (k.first_free_page + pgsize * n)

-- The end of `page_alloc`, past the assertion.
abbrev pub take_page : Kernel → Kernel
take_page k =
    zero_words (page_addr k k.next_free_page) pgsize
      (record k { next_free_page = k.next_free_page + 1 })

unfoldable pub page_alloc : Cmd Kernel ℕ
page_alloc k =
    (do
      kassert (not (k.next_free_page == k.free_pages))
      λ k. ok (page_addr k k.next_free_page) (take_page k))
      k

-- The 100 pages of the table of regions. The address is scaled by 100, the count of pages is not.
unfoldable pub page_alloc1 : Cmd Kernel ℕ
page_alloc1 k =
    (do
      kassert (not (k.next_free_page == k.free_pages))
      λ k.
          let addr = page_addr k (100 * k.next_free_page) in
          ok addr
            (zero_words addr (pgsize * 100) (record k { next_free_page = k.next_free_page + 100 })))
      k

abbrev pub blank_vmr : Vmr
blank_vmr = record { addr = 0; length = 0; file = none; offset = 0; refcnt = 0; prot = 0 }

-- The first use of the table: all its regions are zero.
vmrs_init : Cmd Kernel (Unit {0})
unfolding page_alloc1 spinlock_lock spinlock_unlock
vmrs_init = do
  spinlock_lock
  page ← page_alloc1
  (λ k. ok tt (record k { vmrs = page; vmr = λ _. blank_vmr }))
  spinlock_unlock

incref_opt : Option ℕ → Cmd Io (Unit {0})
unfolding file_incref
incref_opt none = pure tt
incref_opt (some f) = file_incref f

abbrev pub is_free_vmr : Kernel → ℕ → Bool
is_free_vmr k i = (k.vmr i).refcnt == 0

-- The loop of `__vmr_alloc`. The index of the region, or `NULL`.
unfoldable pub vmr_take : Vmr → Cmd Kernel (Option ℕ)
unfolding on_io incref_opt
vmr_take v k = elim (find_from (is_free_vmr k) max_vmr 0) [
  | none ↦ ok none k
  | some i ↦ (do on_io (incref_opt v.file); λ k. ok (some i) (set_vmr i v k)) k
]

-- `refcnt` is a number of pages, cut down to an `unsigned`.
unfoldable pub vmr_alloc :
    (addr length : ℕ) (file : Option ℕ) (offset refcnt prot : ℕ) → Cmd Kernel (Option ℕ)
unfolding vmrs_init vmr_take
vmr_alloc addr length file offset refcnt prot k =
    (do
      (if k.vmrs == 0 then vmrs_init else pure tt)
      vmr_take (record {
        addr = addr;
        length = length;
        file = file;
        offset = offset;
        refcnt = u32 refcnt;
        prot = prot;
      }))
      k

unfoldable pub decref_opt : Host → Option ℕ → Cmd Io (Unit {0})
decref_opt host none = pure tt
decref_opt host (some f) = file_decref host f

unfoldable pub vmr_decref : Host → ℕ → ℕ → Cmd Kernel (Unit {0})
vmr_decref host i dec k =
    let v = k.vmr i in
    let left = u32 (v.refcnt + 2 ^ 32 - dec) in
    let k1 = set_vmr i (record v { refcnt = left }) k in
    if left == 0 then on_io (decref_opt host v.file) k1 else ok tt k1
