-- ===== src/Pk/Trap/Refill.antt =====
-- A page fault of the program that fills its page.
use boom_stop.Base.{
  some, ℕ, ◌%◌, ◌^◌, ◌≤◌, ◌<◌, ◌≡◌, refl, ◌≢◌, Bool, true, false, is_neg, neg, ap, ◌∙◌,
  if◌then◌else◌,
}
use boom_stop.Base.Cmd.{Cmd, Returns, returns, Returns-and_then, Run, ok, panic}
use boom_stop.Pk.Frontend.{Host, dram_base}
use boom_stop.Pk.Mmap.State.{lock, spinlock_lock_free, Kernel, pgsize, spinlock_unlock}
use boom_stop.Pk.Mmap.Walk.{walk, is_valid, pte_create}
use boom_stop.Pk.Mmap.Prot.{prot_to_type, valid_user_range}
use boom_stop.Pk.Mmap.Fault.{handle_page_fault, fault_locked, allows}
use boom_stop.Pk.Mmap.Fault.Frame.{Reads}
use boom_stop.Pk.Mmap.Fault.Demand.{PagedIn, fault_locked-PagedIn, page_of, region_of, frame_of}
use boom_stop.Pk.Syscall.Table.{Sys, Program, entry, row, listed, array_size}
use boom_stop.Pk.Trap.{
  Handler, fault_fetch, fault_load, fault_store, Trapframe, Machine, handle_fault, run_handler,
  handle_trap, find_handler, trap_handlers, on_kernel,
}

-- The causes of page faults, with the right that the access needs.
pub data PageFault : ℕ → ℕ → Type 0 where
  fetch : PageFault 12 4
  load : PageFault 13 1
  store : PageFault 15 2

-- The page of the address is mapped and not filled yet.
pub record Pending (host : Host) (vaddr pte : ℕ) (k : Kernel) : Type 0 where
  pub at : walk k (page_of vaddr) ≡ some pte
  pub used : k.mem pte ≢ 0
  pub unfilled : is_valid (k.mem pte) ≡ false
  pub in_range : valid_user_range k (page_of vaddr) 1 ≡ true
  pub reads : Reads host (k.vmr (region_of k pte)) (page_of vaddr) k.io

-- Where the memory of the program is.
pub record Placed (k : Kernel) : Type 0 where
  pub below : k.current.mmap_max ≤ dram_base
  pub aligned : k.io.first_free_paddr % pgsize ≡ 0
  pub small : k.io.first_free_paddr < 2 ^ 63

abbrev granted : Kernel → (vaddr pte : ℕ) → ℕ → Bool
granted k vaddr pte prot =
    allows
      (pte_create (frame_of k (page_of vaddr)) (prot_to_type (k.vmr (region_of k pte)).prot true))
      prot

fault-lock :
    (host : Host) (vaddr prot pte : ℕ) (k : Kernel)
    → Placed k
    → Pending host vaddr pte k
    → Returns
        (λ r k'.
          PagedIn host (page_of vaddr) pte (lock true k) k'
          × (r ≡ (if allows (k'.mem pte) prot then 0 else neg 1)))
        (fault_locked host vaddr prot (lock true k))
unfolding walk valid_user_range
fault-lock host vaddr prot pte k at p =
    fault_locked-PagedIn host vaddr prot pte (lock true k) p.at p.used p.unfilled p.in_range
      at.below at.aligned at.small p.reads

PagedIn-unlock :
    (host : Host) (page pte : ℕ) (k k' : Kernel)
    → PagedIn host page pte (lock true k) k'
    → PagedIn host page pte k (lock false k')
PagedIn-unlock host page pte k k' p = record {
  entry = p.entry;
  other_words = p.other_words;
  bytes = p.bytes;
  other_bytes = p.other_bytes;
  refcnt = p.refcnt;
}

handle_page_fault-PagedIn :
    (host : Host) (vaddr prot pte : ℕ) (k : Kernel)
    → k.vm_lock ≡ false
    → Placed k
    → Pending host vaddr pte k
    → granted k vaddr pte prot ≡ true
    → Returns
        (λ r k'. (r ≡ 0) × PagedIn host (page_of vaddr) pte k k' × (k'.vm_lock ≡ false))
        (handle_page_fault host vaddr prot k)
unfolding handle_page_fault spinlock_unlock
handle_page_fault-PagedIn host vaddr prot pte k free placed p g = rw (spinlock_lock_free k free) (
    Returns-and_then (fault-lock host vaddr prot pte k placed p) λ r k' (paged, e).
      let allowed : allows (k'.mem pte) prot ≡ true = rw paged.entry g in
      returns (
        e ∙ ap (λ b. if b then 0 else neg 1) allowed,
        PagedIn-unlock host (page_of vaddr) pte k k' paged,
        refl,
      ))

on_kernel-Returns :
    {A : Type 0} {P : A → Kernel → Type 0} (c : Cmd Kernel A) (m : Machine)
    → Returns P (c m.kernel)
    → Returns (λ a m'. P a m'.kernel) (on_kernel c m)
unfolding on_kernel
on_kernel-Returns {A = A} {P = P} c m r = lift r
  where
    lift :
        {x : Run Kernel A}
        → Returns P x
        → Returns
            (λ a m'. P a m'.kernel)
            (elim x [ ok a k ↦ ok a (record m { kernel = k }) | panic ↦ panic ])
    lift (returns p) = returns p

handle_fault-PagedIn :
    (host : Host) (tf : Trapframe) (prot pte : ℕ) (k : Kernel)
    → k.vm_lock ≡ false
    → Placed k
    → Pending host tf.badvaddr pte k
    → granted k tf.badvaddr pte prot ≡ true
    → Returns
        (λ tf' k'. (tf' ≡ tf) × PagedIn host (page_of tf.badvaddr) pte k k' × (k'.vm_lock ≡ false))
        (handle_fault host prot tf k)
unfolding handle_fault
handle_fault-PagedIn host tf prot pte k free placed p g =
    Returns-and_then (handle_page_fault-PagedIn host tf.badvaddr prot pte k free placed p g)
      λ r k' (e, paged, unlocked). rw e (returns (refl, paged, unlocked))

module _ (host : Host) (program : Program) (cycle : ℕ) (other : Sys → Cmd Kernel ℕ) where
  record Found (cause prot : ℕ) : Type 0 where
    handler : Handler
    positive : is_neg cause ≡ false
    found : find_handler cause ≡ entry handler
    runs :
        (tf : Trapframe)
        → run_handler host program cycle other handler tf ≡ handle_fault host prot tf

  find_handler-Found : {cause prot : ℕ} → PageFault cause prot → Found cause prot
  unfolding find_handler trap_handlers row listed array_size run_handler
  find_handler-Found fetch = record {
    handler = fault_fetch;
    positive = refl;
    found = refl;
    runs = λ tf. refl;
  }
  find_handler-Found load = record {
    handler = fault_load;
    positive = refl;
    found = refl;
    runs = λ tf. refl;
  }
  find_handler-Found store = record {
    handler = fault_store;
    positive = refl;
    found = refl;
    runs = λ tf. refl;
  }

  -- With the lock free, a page fault of the program on a page that is mapped and not filled yet, whose
  -- region grants the access, returns with the frame unchanged, so that the program runs the same
  -- instruction again, the page holding what its region says, and the lock free.
  pub handle_trap-PagedIn :
      (tf : Trapframe) (m : Machine) (prot pte : ℕ)
      → PageFault tf.cause prot
      → m.kernel.vm_lock ≡ false
      → Placed m.kernel
      → Pending host tf.badvaddr pte m.kernel
      → granted m.kernel tf.badvaddr pte prot ≡ true
      → Returns
          (λ tf' m'.
            (tf' ≡ tf)
            × PagedIn host (page_of tf.badvaddr) pte m.kernel m'.kernel
            × (m'.kernel.vm_lock ≡ false))
          (handle_trap host program cycle other tf m)
  unfolding handle_trap
  handle_trap-PagedIn tf m prot pte f free placed p g =
      let h = find_handler-Found f in
      rw (h.positive, h.found, h.runs tf)
        (on_kernel-Returns _ m (handle_fault-PagedIn host tf prot pte m.kernel free placed p g))
