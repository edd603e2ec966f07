-- ===== src/Pk/Mmap/Fault.antt =====
-- Page faults: the frame of a page is filled when the program first touches it.
pub mod Demand
pub mod Frame
use boom_stop.Base.{
  ℕ, ◌+◌, ◌*◌, ◌/◌, ◌-◌, ◌^◌, Bool, true, false, not, ◌&&◌, ◌||◌, Option, none, some, ltb, leb,
  ◌==◌, if◌then◌else◌, u64, sub64, neg, is_neg, min, bit_and,
}
use boom_stop.Base.Cmd.{Cmd, ok, panic, pure, kassert, modify, ◌>>=◌, ◌>>◌}
use boom_stop.Pk.Frontend.{Host, Request, request, Calls, frontend_syscall, va2pa}
use boom_stop.Pk.File.{Io, call}
use boom_stop.Pk.Mmap.State.{
  Vmr, Kernel, pgsize, vmr_index, set_word, set_bytes, on_io, spinlock_lock, spinlock_unlock,
}
use boom_stop.Pk.Mmap.Pages.{vmr_decref}
use boom_stop.Pk.Mmap.Walk.{walk, ppn, is_valid, pte_create, pte_at}
use boom_stop.Pk.Mmap.Prot.{prot_to_type, valid_user_range}

abbrev pub sys_pread_number : ℕ
sys_pread_number = 67

abbrev pub pread_request : Io → (f buf size offset : ℕ) → Request
pread_request io f buf size offset =
    request sys_pread_number (io.files f).kfd (va2pa io.first_free_paddr buf) size offset 0 0 0

-- `file_pread` of file.c into memory that is mapped: the host writes as many bytes as it says.
unfoldable pub file_pread : Host → (f buf size offset : ℕ) → Cmd Kernel ℕ
unfolding on_io frontend_syscall
file_pread host f buf size offset k =
    (do
      ret ← on_io (call host (pread_request k.io f buf size offset))
      λ k1. ok ret (
          if is_neg ret
          then k1
          else set_bytes (va2pa k.io.first_free_paddr buf) (min ret size) (host.bytes k1.io.calls)
              k1))
      k

-- The frame at physical address `pa` for the page `vaddr` of region `v`.
unfoldable pub fill_frame : Host → Vmr → (vaddr pa : ℕ) → Cmd Kernel (Unit {0})
unfolding file_pread
fill_frame host v vaddr pa k = elim v.file [
  | none ↦ ok tt (set_bytes pa pgsize (λ _. 0) k)
  | some f ↦
      (let flen = min pgsize (sub64 v.length (sub64 vaddr v.addr)) in
          do
            ret ← file_pread host f vaddr flen (u64 (sub64 vaddr v.addr + v.offset))
            kassert (not (is_neg ret) && ltb 0 ret)
            λ k1.
                ok tt
                  (if ltb ret pgsize then set_bytes (pa + ret) (pgsize - ret) (λ _. 0) k1 else k1))
        k
]

-- The frame is filled while the kernel alone may use the page, and then handed over.
unfoldable pub page_in : Host → (vaddr pte : ℕ) → Cmd Kernel (Unit {0})
page_in host vaddr pte k =
    let frame = ppn vaddr + k.io.first_free_paddr / pgsize in
    let i = vmr_index k (k.mem pte) in
    let v = k.vmr i in
    (do
      modify (set_word pte (pte_create frame (prot_to_type 3 false)))
      fill_frame host v vaddr (frame * pgsize)
      vmr_decref host i 1
      modify (λ k1. set_word pte (pte_create frame (prot_to_type (k1.vmr i).prot true)) k1))
      k

-- (*pte & perms) != perms
abbrev pub allows : (pte prot : ℕ) → Bool
allows pte prot = let perms = pte_create 0 (prot_to_type prot true) in bit_and pte perms == perms

-- The end of `__handle_page_fault`.
unfoldable pub check_perms : (pte prot : ℕ) → Cmd Kernel ℕ
unfolding pte_create prot_to_type
check_perms pte prot k = ok (if allows (k.mem pte) prot then 0 else neg 1) k

unfoldable pub fault_at : Host → (vaddr prot pte : ℕ) → Cmd Kernel ℕ
fault_at host vaddr prot pte k =
    if k.mem pte == 0 || not (valid_user_range k vaddr 1)
    then ok (neg 1) k
    else ((do
      (if is_valid (k.mem pte) then pure tt else page_in host vaddr pte)
      check_perms pte prot)
        k)

-- `__handle_page_fault`, on the lock that its callers hold.
unfoldable pub fault_locked : Host → (vaddr prot : ℕ) → Cmd Kernel ℕ
fault_locked host vaddr prot k =
    let page = u64 (ppn vaddr * pgsize) in
    elim (walk k page) [ none ↦ ok (neg 1) k | some pte ↦ fault_at host page prot pte k ]

unfoldable pub handle_page_fault : Host → (vaddr prot : ℕ) → Cmd Kernel ℕ
unfolding spinlock_lock spinlock_unlock
handle_page_fault host vaddr prot = do
  spinlock_lock
  ret ← fault_locked host vaddr prot
  spinlock_unlock
  pure ret
