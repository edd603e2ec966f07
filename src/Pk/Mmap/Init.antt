-- ===== src/Pk/Mmap/Init.antt =====
-- The kernel's own mapping, and `pk_vm_init`.
use boom_stop.Base.{
  ℕ, zero, suc, ◌+◌, ◌*◌, ◌/◌, ◌-◌, ◌^◌, false, not, none, ◌==◌, u64, sub64, neg, min, max,
}
use boom_stop.Base.Cmd.{Cmd, pure, kassert, modify, ◌>>=◌, ◌>>◌}
use boom_stop.Pk.Frontend.{Host, dram_base}
use boom_stop.Pk.Mmap.State.{Kernel, pgsize, set_word}
use boom_stop.Pk.Mmap.Pages.{page_alloc}
use boom_stop.Pk.Mmap.Walk.{walk_create, ppn, pte_create}
use boom_stop.Pk.Mmap.Prot.{prot_to_type}
use boom_stop.Pk.Mmap.Map.{mmap_locked}
use boom_stop.Pk.Mmap.Brk.{round_up}

unfoldable pub map_kernel_page : (a offset prot : ℕ) → Cmd Kernel (Unit {0})
unfolding walk_create pte_create prot_to_type
map_kernel_page a offset prot = do
  pte ← walk_create a
  kassert (not (pte == 0))
  modify (set_word pte (pte_create (ppn (u64 (a + offset))) (prot_to_type prot false)))

unfoldable pub map_kernel_pages : (offset prot rounds a : ℕ) → Cmd Kernel (Unit {0})
unfolding map_kernel_page
map_kernel_pages offset prot zero a = pure tt
map_kernel_pages offset prot (suc rounds) a = do
  map_kernel_page a offset prot
  map_kernel_pages offset prot rounds (a + pgsize)

unfoldable pub map_kernel_range : (vaddr paddr len prot : ℕ) → Cmd Kernel (Unit {0})
unfolding map_kernel_pages
map_kernel_range vaddr paddr len prot =
    map_kernel_pages (sub64 paddr vaddr) prot (round_up len / pgsize) vaddr

-- `mem_size` is set to 1 GiB, whatever the machine has.
abbrev pub mem_size : ℕ
mem_size = 2 ^ 30

abbrev pub mem_pages : ℕ
mem_pages = mem_size / 2 ^ 12

-- MIN(mem_pages >> 5, 2048) pages
abbrev pub stack_size : ℕ
stack_size = min (mem_pages / 2 ^ 5) 2048 * pgsize

-- The frames behind the kernel's image, which ends at `end`.
abbrev pub place_pages : ℕ → Kernel → Kernel
place_pages end k =
    let free = max 8 (mem_pages / 2 ^ 8) in
    let first = round_up end in
    record k {
      free_pages = free;
      first_free_page = first;
      io = record (k.io) { first_free_paddr = first + free * pgsize };
    }

abbrev pub set_limits : Kernel → Kernel
set_limits k =
    let top = min dram_base (mem_size - (k.io.first_free_paddr - dram_base)) in
    record k { current = record (k.current) { mmap_max = top; brk_max = top } }

abbrev pub set_stack_top : ℕ → Kernel → Kernel
set_stack_top top k = record k { current = record (k.current) { stack_top = top } }

-- The result is the top of the kernel's stack. MAP_PRIVATE | MAP_ANONYMOUS | MAP_FIXED is 0x32.
unfoldable pub pk_vm_init : Host → (end : ℕ) → Cmd Kernel ℕ
unfolding page_alloc map_kernel_range mmap_locked
pk_vm_init host end = do
  modify (place_pages end)
  root ← page_alloc
  modify (λ k. record k { root_page_table = root })
  λ k. map_kernel_range dram_base dram_base (k.io.first_free_paddr - dram_base) 7 k
  modify set_limits
  bottom ← (λ k. mmap_locked host (k.current.mmap_max - stack_size) stack_size 7 0x32 none 0 k)
  kassert (not (bottom == neg 1))
  modify (set_stack_top (bottom + stack_size))
  stack ← page_alloc
  pure (stack + pgsize)
