-- ===== src/Pk/Mmap/State.antt =====
-- The state of mmap.c and of `current` (boot.h). The words of the kernel's pages, which hold the
-- page tables, are `mem` by address; the bytes of the program's frames are `byte` by physical
-- address. The table of mapped regions is `vmr`: a `vmr_t*` is the address `vmrs + 40 * i`, with 40
-- the size of a `vmr_t`. A memset of the kernel's pages clears the regions that lie there too; that
-- one table lies in the words of the other is otherwise left out, and theorems ask for `Apart`.
use boom_stop.Base.{
  ℕ, ◌+◌, ◌*◌, ◌-◌, ◌/◌, ◌≤◌, ◌<◌, Bool, true, false, ◌&&◌, Option, none, if◌then◌else◌, update,
  fill, ◌≡◌, refl, ap, leb, ltb, ◌⊎◌, inl, inr, Bool-cases, arith, fun_ext,
}
use boom_stop.Base.Cmd.{Cmd, Run, ok, panic, Returns, returns}
use boom_stop.Pk.File.{Io}

pub record Vmr : Type 0 where
  pub addr : ℕ
  pub length : ℕ
  pub file : Option ℕ
  pub offset : ℕ
  pub refcnt : ℕ
  pub prot : ℕ

pub record Current : Type 0 where
  pub phent : ℕ
  pub phnum : ℕ
  pub phdr : ℕ
  pub phdr_size : ℕ
  pub entry : ℕ
  pub brk_min : ℕ
  pub brk : ℕ
  pub brk_max : ℕ
  pub mmap_max : ℕ
  pub stack_top : ℕ
  pub time0 : ℕ
  pub cycle0 : ℕ
  pub instret0 : ℕ

pub record Kernel : Type 0 where
  pub io : Io
  pub current : Current
  pub mem : ℕ → ℕ
  pub byte : ℕ → ℕ
  pub vmrs : ℕ
  pub vmr : ℕ → Vmr
  pub root_page_table : ℕ
  pub first_free_page : ℕ
  pub next_free_page : ℕ
  pub free_pages : ℕ
  pub demand_paging : Bool
  pub vm_lock : Bool

abbrev pub pgsize : ℕ
pgsize = 4096

abbrev pub vmr_size : ℕ
vmr_size = 40

-- RISCV_PGSIZE * 100 / sizeof(vmr_t)
abbrev pub max_vmr : ℕ
max_vmr = 10240

abbrev pub vmr_ptr : Kernel → ℕ → ℕ
vmr_ptr k i = k.vmrs + vmr_size * i

-- The index of the region that a pointer is to.
abbrev pub vmr_index : Kernel → ℕ → ℕ
vmr_index k p = (p - k.vmrs) / vmr_size

abbrev pub set_vmr : ℕ → Vmr → Kernel → Kernel
set_vmr i v k = record k { vmr = update k.vmr i v }

-- The 8-byte word at address `a`.
abbrev pub set_word : ℕ → ℕ → Kernel → Kernel
set_word a w k = record k { mem = update k.mem a w }

abbrev in_area : (start n a : ℕ) → Bool
in_area start n a = leb start a && ltb a (start + n)

-- memset(start, 0, n) on a region at `at`: each field that lies in the area is cleared.
unfoldable pub clear_vmr : (start n at : ℕ) → Vmr → Vmr
clear_vmr start n at v = record {
  addr = if in_area start n at then 0 else v.addr;
  length = if in_area start n (at + 8) then 0 else v.length;
  file = if in_area start n (at + 16) then none else v.file;
  offset = if in_area start n (at + 24) then 0 else v.offset;
  refcnt = if in_area start n (at + 32) then 0 else v.refcnt;
  prot = if in_area start n (at + 36) then 0 else v.prot;
}

unfoldable pub clear_vmrs : (start n : ℕ) → Kernel → ℕ → Vmr
clear_vmrs start n k i =
    if ltb i max_vmr then clear_vmr start n (vmr_ptr k i) (k.vmr i) else k.vmr i

-- memset(start, 0, n) on the kernel's pages: their words, and the table of regions where it lies in
-- them.
abbrev pub zero_words : ℕ → ℕ → Kernel → Kernel
zero_words start n k = record k { mem = fill k.mem start n (λ _. 0); vmr = clear_vmrs start n k }

-- An area that the table of regions does not lie in.
abbrev pub Apart : (start n : ℕ) → Kernel → Type 0
Apart start n k = (start + n ≤ k.vmrs) ⊎ (k.vmrs + vmr_size * max_vmr ≤ start)

clear_vmr-Apart :
    (start n at : ℕ) (v : Vmr)
    → (start + n ≤ at) ⊎ (at + vmr_size ≤ start)
    → clear_vmr start n at v ≡ v
unfolding clear_vmr
clear_vmr-Apart start n at v apart =
    let f0 : in_area start n at ≡ false = ground arith in
    let f8 : in_area start n (at + 8) ≡ false = ground arith in
    let f16 : in_area start n (at + 16) ≡ false = ground arith in
    let f24 : in_area start n (at + 24) ≡ false = ground arith in
    let f32 : in_area start n (at + 32) ≡ false = ground arith in
    let f36 : in_area start n (at + 36) ≡ false = ground arith in
    rw (f0, f8, f16, f24, f32, f36) refl

pub clear_vmrs-Apart : (start n : ℕ) (k : Kernel) → Apart start n k → clear_vmrs start n k ≡ k.vmr
unfolding clear_vmrs
clear_vmrs-Apart start n k apart = fun_ext λ i. elim (Bool-cases (ltb i max_vmr)) [
  | inl t ↦ rw t (clear_vmr-Apart start n (vmr_ptr k i) (k.vmr i) (region-Apart i t apart))
  | inr t ↦ rw t refl
]
  where
    region-Apart :
        (i : ℕ)
        → ltb i max_vmr ≡ true
        → Apart start n k
        → (start + n ≤ vmr_ptr k i) ⊎ (vmr_ptr k i + vmr_size ≤ start)
    region-Apart i t (inl below) = inl (omega arith)
    region-Apart i t (inr above) = let low : i < max_vmr = ground arith in inr (omega arith)

abbrev pub set_bytes : ℕ → ℕ → (ℕ → ℕ) → Kernel → Kernel
set_bytes start n g k = record k { byte = fill k.byte start n g }

-- A function of file.c at the kernel's state.
unfoldable pub on_io : {A : Type 0} → Cmd Io A → Cmd Kernel A
on_io m k = elim (m k.io) [ ok a io ↦ ok a (record k { io = io }) | panic ↦ panic ]

-- What a function of file.c guarantees, at the kernel's state: nothing but `io` is changed.
pub data Lifted {A : Type 0} (P : A → Io → Type 0) (k : Kernel) (a : A) (k' : Kernel) : Type 0 where
  lifted : (io : Io) → P a io → k' ≡ record k { io = io } → Lifted P k a k'

lift_result :
    {A : Type 0} {P : A → Io → Type 0} (k : Kernel) {r : Run Io A}
    → Returns P r
    → Returns (Lifted P k) (elim r [ ok a io ↦ ok a (record k { io = io }) | panic ↦ panic ])
lift_result k (returns p) = returns (lifted _ p refl)

pub on_io-Lifted :
    {A : Type 0} {P : A → Io → Type 0} (m : Cmd Io A) (k : Kernel)
    → Returns P (m k.io)
    → Returns (Lifted P k) (on_io m k)
unfolding on_io
on_io-Lifted m k p = lift_result k p

-- A lock that is held already is waited for without end, since one hart runs the kernel.
unfoldable pub spinlock_lock : Cmd Kernel (Unit {0})
spinlock_lock k = if k.vm_lock then panic else ok tt (record k { vm_lock = true })

unfoldable pub spinlock_unlock : Cmd Kernel (Unit {0})
spinlock_unlock k = ok tt (record k { vm_lock = false })

abbrev pub lock : Bool → Kernel → Kernel
lock b k = record k { vm_lock = b }

pub spinlock_lock_free : (k : Kernel) → k.vm_lock ≡ false → spinlock_lock k ≡ ok tt (lock true k)
unfolding spinlock_lock
spinlock_lock_free k free = ap (λ b. if b then panic else ok tt (lock true k)) free
