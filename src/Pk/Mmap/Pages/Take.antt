-- ===== src/Pk/Mmap/Pages/Take.antt =====
-- The allocation of a region once the table exists.
use boom_stop.Base.{
  ℕ, ◌+◌, ◌<◌, ◌≡◌, ◌≢◌, refl, Option, none, some, false, arith, find_from, Found, find_from-Found,
  find_from-none, u32, ◌==◌, ltb, true, Option-cases, inl, inr,
}
use boom_stop.Base.Cmd.{Returns, returns, ok}
use boom_stop.Pk.File.{file_incref, set_refcnt}
use boom_stop.Pk.Mmap.State.{Kernel, Vmr, max_vmr, set_vmr, on_io}
use boom_stop.Pk.Mmap.Pages.{vmr_alloc, vmr_take, is_free_vmr, incref_opt}

-- The state with one more reference to the file of a region.
abbrev counted : Option ℕ → Kernel → Kernel
counted none k = k
counted (some f) k = record k { io = set_refcnt f (u32 ((k.io.files f).refcnt + 1)) k.io }

-- A free region, the first one, becomes `v`, or there is none and nothing is changed.
pub data Taken (v : Vmr) (k : Kernel) : Option ℕ → Kernel → Type 0 where
  taken :
      (i : ℕ)
      → Found (is_free_vmr k) 0 max_vmr i
      → Taken v k (some i) (set_vmr i v (counted v.file k))
  all_used : ((i : ℕ) → i < max_vmr → is_free_vmr k i ≡ false) → Taken v k none k

incref_lem :
    (o : Option ℕ) (k : Kernel)
    → ((f : ℕ) → o ≡ some f → 0 < (k.io.files f).refcnt)
    → on_io (incref_opt o) k ≡ ok tt (counted o k)
unfolding on_io incref_opt file_incref
incref_lem none k held = refl
incref_lem (some f) k held =
    let t : ltb 0 (k.io.files f).refcnt ≡ true = (let h = held f refl in ground arith) in
    rw (t, on_io, incref_opt, file_incref) refl

vmr_take-Taken :
    (v : Vmr) (k : Kernel)
    → ((f : ℕ) → v.file ≡ some f → 0 < (k.io.files f).refcnt)
    → Returns (Taken v k) (vmr_take v k)
unfolding vmr_take
vmr_take-Taken v k held = elim (Option-cases (find_from (is_free_vmr k) max_vmr 0)) [
  | inl e ↦
      rw (e, vmr_take)
        (returns (
          all_used
            λ i h. find_from-none (is_free_vmr k) max_vmr 0 max_vmr i refl e (omega arith) h))
  | inr (i, e) ↦
      rw (e, vmr_take, incref_lem v.file k held)
        (returns (taken i (find_from-Found (is_free_vmr k) max_vmr 0 max_vmr i refl e)))
]

abbrev region : (addr length : ℕ) (file : Option ℕ) (offset refcnt prot : ℕ) → Vmr
region addr length file offset refcnt prot = record {
  addr = addr;
  length = length;
  file = file;
  offset = offset;
  refcnt = u32 refcnt;
  prot = prot;
}

-- With the table made and the file of the region in use, if it has one, `__vmr_alloc` returns: it
-- turns the first free region into the one asked for and counts one more reference to the file, or
-- returns NULL and changes nothing if every region is in use.
pub vmr_alloc-Taken :
    (addr length : ℕ) (file : Option ℕ) (offset refcnt prot : ℕ) (k : Kernel)
    → k.vmrs ≢ 0
    → ((f : ℕ) → file ≡ some f → 0 < (k.io.files f).refcnt)
    → Returns
        (Taken (region addr length file offset refcnt prot) k)
        (vmr_alloc addr length file offset refcnt prot k)
unfolding vmr_alloc
vmr_alloc-Taken addr length file offset refcnt prot k made held =
    let f : (k.vmrs == 0) ≡ false = ground arith in
    rw f (vmr_take-Taken (region addr length file offset refcnt prot) k held)
