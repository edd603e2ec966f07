-- ===== src/Pk/Tests/Space.antt =====
-- The theorems on the address space and on system calls, at concrete states.
use boom_stop.Base.{
  ◌*◌, ◌==◌, ◌≡◌, refl, none, some, true, false, arith, neg, update, if◌then◌else◌,
}
use boom_stop.Base.Cmd.{Returns, ok, kassert, ◌>>◌, ◌>>=◌}
use boom_stop.Pk.Mmap.State.{Kernel, Current, Vmr, pgsize, zero_words}
use boom_stop.Pk.Mmap.Pages.{vmr_alloc, page_alloc, page_alloc1, blank_vmr}
use boom_stop.Pk.Mmap.Pages.Take.{Taken, vmr_alloc-Taken}
use boom_stop.Pk.Mmap.Pages.Reuse.{alloc_times, page_alloc1_reused}
use boom_stop.Pk.Mmap.Walk.{walk, walk_from, pte_create}
use boom_stop.Pk.Mmap.Prot.{valid_user_range, prot_to_type}
use boom_stop.Pk.Mmap.Fault.{fault_locked, allows}
use boom_stop.Pk.Mmap.Fault.Demand.{PagedIn, frame_of, fault_locked-PagedIn}
use boom_stop.Pk.Mmap.Map.{vm_alloc}
use boom_stop.Pk.Mmap.Map.Search.{Outcome, vm_alloc-Outcome}
use boom_stop.Pk.Mmap.Protect.{do_mprotect}
use boom_stop.Pk.Mmap.Protect.Spill.{do_mprotect_spills}
use boom_stop.Pk.Syscall.Table.{find_syscall, slot, listed, old_syscall_table}
use boom_stop.Pk.Syscall.Table.Lookup.{find_syscall-listed}
use boom_stop.Pk.Tests.{seven, one_open}

abbrev current : Current
current = record {
  phent = 0;
  phnum = 0;
  phdr = 0;
  phdr_size = 0;
  entry = 0;
  brk_min = 0x18000;
  brk = 0x20000;
  brk_max = 0x30000000;
  mmap_max = 0x30000000;
  stack_top = 0;
  time0 = 0;
  cycle0 = 0;
  instret0 = 0;
}

-- An anonymous region of two pages at 0x10000, neither of them filled.
abbrev region : Vmr
region = record { addr = 0x10000; length = 0x2000; file = none; offset = 0; refcnt = 2; prot = 3 }

-- The tables of the three levels stand in pages 1, 2 and 3.
abbrev pub kernel : Kernel
kernel = record {
  io = record one_open { first_free_paddr = 0x80800000 };
  current = current;
  mem =
      update (update (update (update (λ _. 0) 4096 2049) 8192 3073) 12416 0x100000) 12424 0x100000;
  byte = λ _. 255;
  vmrs = 0x100000;
  vmr = update (λ _. blank_vmr) 0 region;
  root_page_table = 4096;
  first_free_page = 0x80400000;
  next_free_page = 2;
  free_pages = 300;
  demand_paging = true;
  vm_lock = false;
}

pub page_16 : walk kernel 0x10000 ≡ some 12416
unfolding walk walk_from
page_16 = refl

fault_locked-PagedIn_example :
    Returns
      (λ r k'.
        PagedIn seven 0x10000 12416 kernel k'
        × (r ≡ (if allows (k'.mem 12416) 2 then 0 else neg 1)))
      (fault_locked seven 0x10010 2 kernel)
unfolding valid_user_range
fault_locked-PagedIn_example =
    fault_locked-PagedIn seven 0x10010 2 12416 kernel page_16 (λ e. omega arith) refl refl
      (omega arith) (omega arith) (omega arith) (λ f e. cc)

page_17 : walk kernel 0x11000 ≡ some 12424
unfolding walk walk_from
page_17 = refl

-- Page 16 is made read-only, and then page 17, of the same region, is written to.
do_mprotect_spills_example :
    Returns
      (λ r k'.
        (k'.mem 12424 ≡ pte_create (frame_of kernel 0x11000) (prot_to_type 1 true))
        × (r ≡ (
            if allows (pte_create (frame_of kernel 0x11000) (prot_to_type 1 true)) 2
            then 0
            else neg 1)))
      ((do r ← do_mprotect 0x10000 pgsize 1; kassert (r == 0); fault_locked seven 0x11008 2) kernel)
unfolding valid_user_range
do_mprotect_spills_example =
    do_mprotect_spills seven kernel 0x10000 12416 1 0x11008 2 12424 refl (omega arith) (omega arith)
      (record { entry = page_16; mapped = λ e. omega arith; unfilled = refl }) refl
      (record { entry = page_17; mapped = λ e. omega arith; unfilled = refl }) refl refl
      (omega arith) (omega arith) (omega arith) (λ f e. cc)

vm_alloc-Outcome_example :
    Returns (λ r k'. (k' ≡ kernel) × Outcome kernel 3 0x2fffd000 0x20000 r) (vm_alloc 3 kernel)
vm_alloc-Outcome_example = vm_alloc-Outcome kernel 3 (omega arith) (omega arith) (omega arith)

-- The table of regions at page 200, with 98 pages to go before that page is handed out again.
abbrev with_table : Kernel
with_table = zero_words 0x804c8000 (pgsize * 100) (record kernel { next_free_page = 102 })

page_alloc1_runs : page_alloc1 kernel ≡ ok 0x804c8000 with_table
unfolding page_alloc1
page_alloc1_runs = refl

page_alloc1_reused_example :
    Returns (λ b _. b ≡ 0x804c8000) ((alloc_times 98 >> page_alloc) with_table)
page_alloc1_reused_example =
    page_alloc1_reused kernel with_table 0x804c8000 page_alloc1_runs (omega arith) (omega arith)

abbrev with_io : Kernel
with_io = record kernel { io = one_open }

find_syscall-listed_example : find_syscall 1024 ≡ slot (listed old_syscall_table 0)
find_syscall-listed_example = find_syscall-listed 1024 (omega arith)

vmr_alloc-Taken_example :
    Returns
      (Taken
        (record { addr = 0x40000; length = 0x3000; file = none; offset = 0; refcnt = 3; prot = 3 })
        kernel)
      (vmr_alloc 0x40000 0x3000 none 0 3 3 kernel)
vmr_alloc-Taken_example =
    vmr_alloc-Taken 0x40000 0x3000 none 0 3 3 kernel (λ e. omega arith) (λ f e. cc)
