-- ===== src/Pk/Tests/Pages.antt =====
-- The theorems on the map of pages, at a kernel with three page tables.
use boom_stop.Base.{
  ℕ, zero, suc, ◌+◌, ◌*◌, ◌^◌, ◌<◌, ◌≡◌, refl, ◌⊎◌, true, false, inl, inr, Bool-cases, ◌==◌, arith,
  update, if◌then◌else◌,
}
use boom_stop.Base.Cmd.{Returns}
use boom_stop.Pk.Mmap.State.{Kernel}
use boom_stop.Pk.Mmap.Walk.{walk, walk_from, walk_create, is_valid, pte_at}
use boom_stop.Pk.Mmap.Walk.Tree.{Page, Child, Tree}
use boom_stop.Pk.Mmap.Walk.Create.{Pool, Created, walk_create-Created}
use boom_stop.Pk.Mmap.Map.{do_mmap, do_munmap}
use boom_stop.Pk.Mmap.Map.Erase.{touches, SameBut, do_munmap-Erased}
use boom_stop.Pk.Mmap.Map.Region.{live}
use boom_stop.Pk.Mmap.Map.Fixed.{Mapped, do_mmap-Mapped}
use boom_stop.Pk.Mmap.Brk.{do_brk}
use boom_stop.Pk.Mmap.Brk.Shrink.{Shrunk, do_brk-Shrunk}
use boom_stop.Pk.Tests.{seven}
use boom_stop.Pk.Tests.Space.{kernel}

abbrev root : ℕ
root = 0x80400000

-- The first entries of the upper tables point to the next one, and page 16 has the first region.
abbrev tables : ℕ → ℕ
tables =
    update (update (update (λ _. 0) root 0x20100401) 0x80401000 0x20100801) 0x80402080 0x80900000

abbrev mapped_kernel : Kernel
mapped_kernel = record kernel {
  mem = tables;
  vmrs = 0x80900000;
  root_page_table = root;
  next_free_page = 3;
}

abbrev level : ℕ → ℕ
level t = if t == root then 2 else if t == 0x80401000 then 1 else 0

abbrev up : ℕ → ℕ
up t = if t == 0x80401000 then root else 0x80401000

abbrev top : ℕ
top = 0x80403000

valid_at : (a : ℕ) → is_valid (tables a) ≡ true → (a ≡ root) ⊎ (a ≡ 0x80401000)
valid_at a v = elim (Bool-cases (0x80402080 == a)) [
  | inl e ↦ cc (rw e at v)
  | inr n ↦ elim (Bool-cases (0x80401000 == a)) [
    | inl e ↦ inr (ground arith)
    | inr m ↦ elim (Bool-cases (root == a)) [
      | inl e ↦ inl (ground arith)
      | inr l ↦ cc (rw (n, m, l) at v)
    ]
  ]
]

closed :
    (t j : ℕ)
    → Page root top t
    → j < 512
    → 0 < level t
    → is_valid (tables (t + 8 * j)) ≡ true
    → Child level up tables root top (t + 8 * j) (level t)
closed t j page small high v = elim (valid_at (t + 8 * j) v) [
  | inl e ↦
      let q : t ≡ root = omega (arith, e, page.aligned) in
      rw (e, q)
        (record {
          page = record { above = omega arith; below = omega arith; aligned = refl };
          height = refl;
          parent = refl;
        })
  | inr e ↦
      let q : t ≡ 0x80401000 = omega (arith, e, page.aligned) in
      rw (e, q)
        (record {
          page = record { above = omega arith; below = omega arith; aligned = refl };
          height = refl;
          parent = refl;
        })
]

tables-Tree : Tree level up tables root top root
tables-Tree = record {
  lo_aligned = refl;
  hi_aligned = refl;
  root_page = record { above = omega arith; below = omega arith; aligned = refl };
  root_height = refl;
  closed = closed;
}

mapped_kernel-Pool : Pool level up mapped_kernel
mapped_kernel-Pool = record { tree = tables-Tree; fits = omega arith; positive = omega arith }

walk_create-Created_example :
    Returns (Created 2 0x40000000 mapped_kernel) (walk_create 0x40000000 mapped_kernel)
walk_create-Created_example =
    walk_create-Created 0x40000000 mapped_kernel level up mapped_kernel-Pool (omega arith)
      (inl (omega arith))

do_munmap-Erased_example :
    Returns
      (λ r k'.
        (r ≡ 0)
        × Pool level up k'
        × ((b : ℕ)
            → b < 2 ^ 39
            → pte_at k' b ≡ (if touches 0x10000 0x1001 b then 0 else pte_at mapped_kernel b))
        × SameBut mapped_kernel k')
      (do_munmap seven 0x10000 0x1001 mapped_kernel)
do_munmap-Erased_example =
    do_munmap-Erased seven level up 0x10000 0x1001 mapped_kernel mapped_kernel-Pool refl refl
      (omega arith) (omega arith) (omega arith)

-- Page 16 names region 0, and page 17 has no entry.
pages_in_use :
    (j : ℕ)
    → j * 4096 < 0x1001
    → live mapped_kernel (pte_at mapped_kernel (0x10000 + j * 4096)) ≡ true
unfolding walk walk_from
pages_in_use zero low = refl
pages_in_use (suc zero) low = refl
pages_in_use (suc (suc j)) low = absurd (omega arith)

-- 0x32 is MAP_PRIVATE, MAP_FIXED and MAP_ANONYMOUS.
do_mmap-Mapped_example :
    Returns
      (λ r k'. Mapped 0x10000 0x1001 3 0 mapped_kernel r k' × (k'.vm_lock ≡ false))
      (do_mmap seven 0x10000 0x1001 3 0x32 0 0 mapped_kernel)
do_mmap-Mapped_example =
    do_mmap-Mapped seven level up 0x10000 0x1001 3 0x32 0 0 mapped_kernel mapped_kernel-Pool refl
      (omega arith) (λ e. omega arith) refl (omega arith) (inl (omega arith)) pages_in_use refl
      (λ e. omega arith) refl refl (omega arith) (omega arith)

do_brk-Shrunk_example :
    Returns (Shrunk level up mapped_kernel 0x19001) (do_brk seven 0x19001 mapped_kernel)
do_brk-Shrunk_example =
    do_brk-Shrunk seven level up 0x19001 mapped_kernel mapped_kernel-Pool refl (λ e. omega arith)
      (omega arith) (omega arith) (omega arith) (omega arith) (omega arith) (omega arith)
