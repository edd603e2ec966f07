-- ===== src/Pk/Mmap/Walk.antt =====
-- The walk through the three levels of page tables (Sv39).
pub mod Tree
pub mod Store
pub mod Grow
pub mod Create
pub mod Keep
use boom_stop.Base.{
  ℕ, zero, suc, ◌+◌, ◌*◌, ◌/◌, ◌%◌, ◌^◌, Bool, Option, none, some, ◌==◌, if◌then◌else◌, u64, bit_or,
}
use boom_stop.Base.Cmd.{Cmd, ok, halt, ◌>>=◌, ◌>>◌, modify}
use boom_stop.Pk.Mmap.State.{Kernel, set_word}
use boom_stop.Pk.Mmap.Pages.{page_alloc}

abbrev pub pte_ppn : ℕ → ℕ
pte_ppn pte = pte / 2 ^ 10

abbrev pub ppn : ℕ → ℕ
ppn addr = addr / 2 ^ 12

-- addr >> (9 * level + 12) & (2 ^ 9 - 1)
abbrev pub pt_idx : ℕ → ℕ → ℕ
pt_idx addr level = addr / 2 ^ (9 * level + 12) % 2 ^ 9

-- Bit `i` of a word.
abbrev pub has_bit : ℕ → ℕ → Bool
has_bit i w = w / 2 ^ i % 2 == 1

-- pte & PTE_V
abbrev pub is_valid : ℕ → Bool
is_valid pte = has_bit 0 pte

unfoldable pub pte_create : (ppn type : ℕ) → ℕ
pte_create ppn type = bit_or (bit_or (u64 (ppn * 2 ^ 10)) 1) type

unfoldable pub ptd_create : ℕ → ℕ
unfolding pte_create
ptd_create ppn = pte_create ppn 1

-- The table that an entry points to, and the address of the entry of a table for an address.
abbrev pub table_of : ℕ → ℕ
table_of pte = u64 (pte_ppn pte * 2 ^ 12)

abbrev pub entry : (table addr level : ℕ) → ℕ
entry table addr level = table + 8 * pt_idx addr level

-- Where a walk ends: at an entry of a table above the last that is not valid, or at the entry for
-- the page.
pub data Walked : Type 0 where
  missing : ℕ → Walked
  leaf : ℕ → Walked

-- The loop of `__walk_internal`, from the table `t` of level `i` on.
unfoldable pub walk_from : (mem : ℕ → ℕ) (t addr i : ℕ) → Walked
walk_from mem t addr zero = leaf (entry t addr 0)
walk_from mem t addr (suc i) =
    let e = entry t addr (suc i) in
    let below = walk_from mem (table_of (mem e)) addr i in
    if is_valid (mem e) then below else missing e

unfoldable pub walk : Kernel → ℕ → Option ℕ
unfolding walk_from
walk k addr = elim (walk_from k.mem k.root_page_table addr 2) [ missing _ ↦ none | leaf e ↦ some e ]

-- `__walk_create`: each missing table is made, and the walk begins anew, which it does twice at
-- most: `fuel` is 3.
unfoldable pub walk_create_on : (fuel addr : ℕ) → Cmd Kernel ℕ
unfolding page_alloc ptd_create walk_from
walk_create_on zero addr k = halt k
walk_create_on (suc fuel) addr k = elim (walk_from k.mem k.root_page_table addr 2) [
  | leaf e ↦ ok e k
  | missing e ↦
      (do page ← page_alloc; modify (set_word e (ptd_create (ppn page))); walk_create_on fuel addr)
        k
]

unfoldable pub walk_create : ℕ → Cmd Kernel ℕ
unfolding walk_create_on
walk_create = walk_create_on 3

-- The entry for a page, or 0 where there is none.
abbrev pub pte_at : Kernel → ℕ → ℕ
pte_at k addr = elim (walk k addr) [ none ↦ 0 | some e ↦ k.mem e ]

unfoldable pub va_avail : Kernel → ℕ → Bool
unfolding walk
va_avail k vaddr = pte_at k vaddr == 0
