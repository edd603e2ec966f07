-- ===== src/Pk/Mmap/Protect/Spill.antt =====
-- `do_mprotect` of one page that is not filled yet acts on the page's whole region.
use boom_stop.Base.{
  ℕ, ◌+◌, ◌%◌, ◌^◌, ◌<◌, ◌≤◌, ◌≡◌, refl, sym, ◌∙◌, ap, subst, ◌≢◌, true, false, some, arith, ◌==◌,
  ltb, ==_self, if◌then◌else◌, neg,
}
use boom_stop.Base.Cmd.{Returns, Returns-mono, ok, kassert, ◌>>=◌, ◌>>◌}
use boom_stop.Pk.Frontend.{Host, dram_base}
use boom_stop.Pk.Mmap.State.{Kernel, pgsize, set_vmr, lock}
use boom_stop.Pk.Mmap.Walk.{walk, is_valid, pte_create}
use boom_stop.Pk.Mmap.Prot.{prot_to_type, valid_user_range}
use boom_stop.Pk.Mmap.Fault.{fault_locked, allows}
use boom_stop.Pk.Mmap.Fault.Frame.{Reads}
use boom_stop.Pk.Mmap.Fault.Demand.{region_of, frame_of, page_of, fault_locked-PagedIn}
use boom_stop.Pk.Mmap.Map.{page_rounds}
use boom_stop.Pk.Mmap.Protect.{added_prot, protect_page, protect_pages, do_mprotect}

-- A mapped page that is not filled yet, with its entry at `e`.
pub record Pending (k : Kernel) (a e : ℕ) : Type 0 where
  pub entry : walk k a ≡ some e
  pub mapped : k.mem e ≢ 0
  pub unfilled : is_valid (k.mem e) ≡ false

protect_page_lem :
    (k : Kernel) (a e prot : ℕ)
    → Pending k a e
    → added_prot (k.vmr (region_of k e)).prot prot ≡ 0
    → protect_page a prot k
      ≡ ok 0 (set_vmr (region_of k e) (record (k.vmr (region_of k e)) { prot = prot }) k)
unfolding protect_page
protect_page_lem k a e prot p none_added =
    let t : (k.mem e == 0) ≡ false = ground (arith, p.mapped) in
    rw (p.entry, protect_page, t, p.unfilled, none_added)

protect_one :
    (k k1 : Kernel) (a prot : ℕ)
    → a + pgsize < 2 ^ 64
    → protect_page a prot k ≡ ok 0 k1
    → protect_pages prot (page_rounds a pgsize) a k ≡ ok 0 k1
unfolding protect_pages
protect_one k k1 a prot below e =
    let one : ltb (a + pgsize) (2 ^ 64) ≡ true = ground arith in rw (one, e)

Pending-lock : (k : Kernel) (a e : ℕ) → Pending k a e → Pending (record k { vm_lock = true }) a e
unfolding walk
Pending-lock k a e p = record { entry = p.entry; mapped = p.mapped; unfilled = p.unfilled }

-- The kernel with another protection of region `i`.
abbrev reprotected : (i prot : ℕ) → Kernel → Kernel
reprotected i prot k = lock false (set_vmr i (record (k.vmr i) { prot = prot }) k)

do_mprotect_one :
    (k : Kernel) (a e prot : ℕ)
    → k.vm_lock ≡ false
    → a % pgsize ≡ 0
    → a + pgsize < 2 ^ 64
    → Pending k a e
    → added_prot (k.vmr (region_of k e)).prot prot ≡ 0
    → do_mprotect a pgsize prot k ≡ ok 0 (reprotected (region_of k e) prot k)
unfolding do_mprotect
do_mprotect_one k a e prot free aligned below pending none_added =
    let boundary : (a % pgsize == 0) ≡ true = ground arith in
    let page =
      protect_one (record k { vm_lock = true }) _ a prot below
        (protect_page_lem (record k { vm_lock = true }) a e prot (Pending-lock k a e pending)
          none_added) in
    rw (boundary, free, page) refl

-- The protection of the region of another page is changed, and what its host reads is not.
other_prot :
    (k : Kernel) (e prot other : ℕ)
    → region_of k other ≡ region_of k e
    → ((reprotected (region_of k e) prot k).vmr (region_of k other))
      ≡ record (k.vmr (region_of k other)) { prot = prot }
other_prot k e prot other same = rw (same, ==_self (region_of k e)) refl

other-Reads :
    (host : Host) (k : Kernel) (e prot other page : ℕ)
    → region_of k other ≡ region_of k e
    → Reads host (k.vmr (region_of k other)) page k.io
    → Reads host ((reprotected (region_of k e) prot k).vmr (region_of k other)) page k.io
other-Reads host k e prot other page same reads =
    subst (λ v. Reads host v page k.io) (sym (other_prot k e prot other same)) reads

-- With the lock free, a do_mprotect of a single page that is mapped and not filled yet, at a page
-- boundary, with no right that its region lacks, returns 0; and when another page below mmap_max, mapped
-- and not filled yet, whose entry points to the same region, has its first fault, its entry gets the
-- rights of the new protection, and the access is allowed only if they allow it.
pub do_mprotect_spills :
    (host : Host) (k : Kernel) (a e prot vaddr access other : ℕ)
    → k.vm_lock ≡ false
    → a % pgsize ≡ 0
    → a + pgsize < 2 ^ 64
    → Pending k a e
    → added_prot (k.vmr (region_of k e)).prot prot ≡ 0
    → Pending k (page_of vaddr) other
    → region_of k other ≡ region_of k e
    → valid_user_range k (page_of vaddr) 1 ≡ true
    → k.current.mmap_max ≤ dram_base
    → k.io.first_free_paddr % pgsize ≡ 0
    → k.io.first_free_paddr < 2 ^ 63
    → Reads host (k.vmr (region_of k other)) (page_of vaddr) k.io
    → Returns
        (λ r k'.
          (k'.mem other ≡ pte_create (frame_of k (page_of vaddr)) (prot_to_type prot true))
          × (r ≡ (
              if allows (pte_create (frame_of k (page_of vaddr)) (prot_to_type prot true)) access
              then 0
              else neg 1)))
        ((do r ← do_mprotect a pgsize prot; kassert (r == 0); fault_locked host vaddr access) k)
unfolding walk valid_user_range
do_mprotect_spills host k a e prot vaddr access other free aligned below pending none_added p same
      valid top based small reads =
    let k1 : Kernel = reprotected (region_of k e) prot k in
    rw (do_mprotect_one k a e prot free aligned below pending none_added) (
      Returns-mono
        (fault_locked-PagedIn host vaddr access other k1 p.entry p.mapped p.unfilled valid top based
          small (other-Reads host k e prot other (page_of vaddr) same reads))
        λ r k' (paged, result).
          let entry : k'.mem other
              ≡ pte_create (frame_of k (page_of vaddr)) (prot_to_type prot true) =
            paged.entry
            ∙ ap (λ v. pte_create (frame_of k (page_of vaddr)) (prot_to_type v.prot true))
                (other_prot k e prot other same) in
          (entry, result ∙ ap (λ x. if allows x access then 0 else neg 1) entry))
