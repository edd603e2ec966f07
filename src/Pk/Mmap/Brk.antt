-- ===== src/Pk/Mmap/Brk.antt =====
-- The break: the end of the program's heap.
pub mod Shrink
use boom_stop.Base.{
  ℕ, ◌+◌, ◌*◌, ◌/◌, ◌-◌, ◌^◌, Bool, true, false, none, ltb, ◌==◌, if◌then◌else◌, u64, sub64, neg,
}
use boom_stop.Base.Cmd.{Cmd, ok, pure, kassert, modify, ◌>>=◌, ◌>>◌}
use boom_stop.Pk.Frontend.{Host}
use boom_stop.Pk.Mmap.State.{Kernel, Current, pgsize, spinlock_lock, spinlock_unlock}
use boom_stop.Pk.Mmap.Map.{munmap_locked, mmap_locked}

-- ROUNDUP(a, RISCV_PGSIZE) of bits.h, on words.
abbrev pub round_up : ℕ → ℕ
round_up a = u64 ((sub64 a 1 / pgsize + 1) * pgsize)

abbrev pub set_brk : ℕ → Kernel → Kernel
set_brk b k = record k { current = record (k.current) { brk = b } }

-- The request, cut to the range of the heap.
abbrev pub clamp_brk : Kernel → ℕ → ℕ
clamp_brk k addr =
    if ltb addr k.current.brk_min
    then k.current.brk_min
    else if ltb k.current.brk_max addr
    then k.current.brk_max
    else addr

-- The first call sets the break behind the program.
abbrev pub start_brk : Kernel → Kernel
start_brk k = if k.current.brk == 0 then set_brk (round_up k.current.brk_min) k else k

-- MAP_FIXED | MAP_PRIVATE | MAP_ANONYMOUS
abbrev pub brk_flags : ℕ
brk_flags = 0x32

-- From the old break to the page boundary `new`.
unfoldable pub move_brk : Host → (new : ℕ) → Cmd Kernel (Unit {0})
move_brk host new k =
    let old = k.current.brk in
    if ltb new old
    then munmap_locked host new (old - new) k
    else if ltb old new
    then ((do
      got ← mmap_locked host old (new - old) (neg 1) brk_flags none 0
      λ k1. kassert (got == k1.current.brk) k1)
        k)
    else ok tt k

-- `__do_brk`
unfoldable pub brk_locked : Host → ℕ → Cmd Kernel ℕ
brk_locked host addr k =
    let new = clamp_brk k addr in
    let page = round_up new in
    (do move_brk host page; modify (set_brk page); pure new) (start_brk k)

unfoldable pub do_brk : Host → ℕ → Cmd Kernel ℕ
unfolding spinlock_lock spinlock_unlock
do_brk host addr = do spinlock_lock; ret ← brk_locked host addr; spinlock_unlock; pure ret
