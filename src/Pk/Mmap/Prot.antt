-- ===== src/Pk/Mmap/Prot.antt =====
-- Protections, the types of page table entries, and the range of addresses of the program.
use boom_stop.Base.{ℕ, ◌+◌, Bool, false, ltb, leb, ◌==◌, if◌then◌else◌, u64, bit_or}
use boom_stop.Pk.Mmap.State.{Kernel}
use boom_stop.Pk.Mmap.Walk.{has_bit}

abbrev pub prot_read : ℕ
prot_read = 1

abbrev pub prot_write : ℕ
prot_write = 2

abbrev pub prot_exec : ℕ
prot_exec = 4

abbrev pub map_private : ℕ
map_private = 0x2

abbrev pub map_fixed : ℕ
map_fixed = 0x10

abbrev pub map_anonymous : ℕ
map_anonymous = 0x20

-- prot & PROT_READ and so on; an `int` of -1 has every bit.
abbrev pub wants_read : ℕ → Bool
wants_read prot = has_bit 0 prot

abbrev pub wants_write : ℕ → Bool
wants_write prot = has_bit 1 prot

abbrev pub wants_exec : ℕ → Bool
wants_exec prot = has_bit 2 prot

abbrev pub or_if : Bool → ℕ → ℕ → ℕ
or_if b bits pte = if b then bit_or pte bits else pte

-- PTE_R 2, PTE_W 4, PTE_X 8, PTE_U 0x10, PTE_A 0x40, PTE_D 0x80.
unfoldable pub type_of : (r w x user : Bool) → ℕ
type_of r w x user =
    let pte = or_if x 0x48 (or_if w 0x84 (or_if r 0x42 0)) in
    or_if user 0x10 (if pte == 0 then 2 else pte)

unfoldable pub prot_to_type : ℕ → Bool → ℕ
unfolding type_of
prot_to_type prot user = type_of (wants_read prot) (wants_write prot) (wants_exec prot) user

unfoldable pub valid_user_range : Kernel → ℕ → ℕ → Bool
valid_user_range k vaddr len =
    if ltb (u64 (vaddr + len)) vaddr then false else leb (u64 (vaddr + len)) k.current.mmap_max
