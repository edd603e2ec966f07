-- ===== src/Pk/Elf.antt =====
-- elf.c: `load_elf`, on the address space. The headers are read into the kernel's stack, at the
-- addresses `eh` and `current.phdr`, and their fields are taken from the bytes there as the 64-bit
-- structures of elf.h place them. The build has compressed instructions. What is printed is left
-- out, and so is the highest address, which is computed and not used.
pub mod Rights
use boom_stop.Base.{
  ℕ, zero, suc, ◌+◌, ◌-◌, ◌*◌, ◌%◌, ◌^◌, Bool, true, false, not, ◌&&◌, ◌||◌, Option, none, some,
  u64, u32, sub64, ltb, leb, ◌==◌, is_neg, if◌then◌else◌, bit_or,
}
use boom_stop.Base.Cmd.{Cmd, ok, panic, halt, pure, ◌>>=◌, ◌>>◌, modify, kassert}
use boom_stop.Pk.Frontend.{Host, CString, va2pa}
use boom_stop.Pk.File.{Opened, opened, failed, file_open, file_decref}
use boom_stop.Pk.Mmap.State.{Kernel, Current, pgsize, set_bytes, on_io}
use boom_stop.Pk.Mmap.Walk.{has_bit}
use boom_stop.Pk.Mmap.Prot.{or_if}
use boom_stop.Pk.Mmap.Fault.{file_pread}
use boom_stop.Pk.Mmap.Map.{mmap_locked}
use boom_stop.Pk.Mmap.Brk.{round_up}
use boom_stop.Pk.Mmap.Protect.{do_mprotect}

-- The number of `size` bytes at `a`, lowest first.
abbrev pub field : (ℕ → ℕ) → (a size : ℕ) → ℕ
field byte a zero = 0
field byte a (suc size) = byte a % 256 + 256 * field byte (a + 1) size

pub record Phdr : Type 0 where
  pub p_type : ℕ
  pub p_flags : ℕ
  pub p_offset : ℕ
  pub p_vaddr : ℕ
  pub p_filesz : ℕ
  pub p_memsz : ℕ

abbrev pub phdr_bytes : ℕ
phdr_bytes = 56

abbrev pub ehdr_bytes : ℕ
ehdr_bytes = 64

unfoldable pub read_phdr : Kernel → ℕ → Phdr
read_phdr k i =
    let a = k.current.phdr + phdr_bytes * i in
    record {
      p_type = field k.byte a 4;
      p_flags = field k.byte (a + 4) 4;
      p_offset = field k.byte (a + 8) 8;
      p_vaddr = field k.byte (a + 16) 8;
      p_filesz = field k.byte (a + 32) 8;
      p_memsz = field k.byte (a + 40) 8;
    }

-- PF_X, PF_W and PF_R are bits 0, 1 and 2.
unfoldable pub get_prot : ℕ → ℕ
get_prot p_flags =
    let x = if has_bit 0 p_flags then 4 else 0 in
    let w = if has_bit 1 p_flags then 2 else 0 in
    let r = if has_bit 2 p_flags then 1 else 0 in bit_or (bit_or x w) r

-- IS_ELF64
abbrev pub is_elf64 : (ℕ → ℕ) → ℕ → Bool
is_elf64 byte eh =
    byte eh == 127
    && (byte (eh + 1) == 69 && (byte (eh + 2) == 76 && (byte (eh + 3) == 70 && byte (eh + 4) == 2)))

unfoldable pub raise_brk_min : ℕ → Kernel → Kernel
raise_brk_min top k =
    if ltb k.current.brk_min top
    then record k { current = record (k.current) { brk_min = top } }
    else k

-- MAP_FIXED | MAP_PRIVATE, and with MAP_POPULATE or MAP_ANONYMOUS
abbrev pub load_flags : Bool → ℕ
load_flags populate = if populate then 0x8012 else 0x12

abbrev pub zero_flags : ℕ
zero_flags = 0x32

-- The end of a segment that the file does not fill.
unfoldable pub map_rest : Host → Phdr → (vaddr prepad prot : ℕ) → Cmd Kernel (Unit {0})
map_rest host ph vaddr prepad prot =
    let mapped = sub64 (round_up (u64 (ph.p_filesz + prepad))) prepad in
    if ltb mapped ph.p_memsz
    then (do
      got ← mmap_locked host (u64 (vaddr + mapped)) (ph.p_memsz - mapped) prot zero_flags none 0
      if got == u64 (vaddr + mapped) then pure tt else halt)
    else pure tt

unfoldable pub load_segment : Host → (file bias : ℕ) → Phdr → Cmd Kernel (Unit {0})
load_segment host file bias ph =
    let prepad = ph.p_vaddr % pgsize in
    let vaddr = u64 (ph.p_vaddr + bias) in
    let start = sub64 vaddr prepad in
    let size = u64 (ph.p_filesz + prepad) in
    let prot = get_prot ph.p_flags in
    do
      modify (raise_brk_min (u64 (vaddr + ph.p_memsz)))
      got ←
          mmap_locked host start size (bit_or prot 2) (load_flags (not (prepad == 0))) (some file)
            (sub64 ph.p_offset prepad)
      if got == start then pure tt else halt
      modify (λ k. set_bytes (va2pa k.io.first_free_paddr start) prepad (λ _. 0) k)
      denied ← if has_bit 1 prot then pure 0 else do_mprotect start size prot
      if denied == 0 then pure tt else halt
      map_rest host ph vaddr prepad prot

abbrev pub is_loaded : Phdr → Bool
is_loaded ph = ph.p_type == 1 && not (ph.p_memsz == 0)

-- for (int i = n - 1; i >= 0; i--)
unfoldable pub load_segments : Host → (file bias n : ℕ) → Cmd Kernel (Unit {0})
load_segments host file bias zero = pure tt
load_segments host file bias (suc i) = do
  λ k.
      (if is_loaded (read_phdr k i) then load_segment host file bias (read_phdr k i) else pure tt) k
  load_segments host file bias i

abbrev pub set_header : (phnum entry : ℕ) → Kernel → Kernel
set_header phnum entry k = record k {
  current = record (k.current) { phnum = phnum; phent = phdr_bytes; entry = entry };
}

-- a >= b, for a count that the host gives and a size
abbrev pub is_short : ℕ → ℕ → Bool
is_short ret size = is_neg ret || ltb ret size

-- The part of `load_elf` after the header is read.
unfoldable pub load_program : Host → (file eh : ℕ) → Cmd Kernel (Unit {0})
load_program host file eh k0 =
    let phnum = field k0.byte (eh + 56) 2 in
    let size = phnum * phdr_bytes in
    let bias = if field k0.byte (eh + 16) 2 == 3 then pgsize else 0 in
    let entry = u64 (field k0.byte (eh + 24) 8 + bias) in
    (do
      kassert (is_elf64 k0.byte eh)
      kassert (not (ltb k0.current.phdr_size size))
      ret ← file_pread host file k0.current.phdr size (field k0.byte (eh + 32) 8)
      kassert (not (is_short ret size))
      modify (set_header phnum entry)
      load_segments host file bias phnum
      on_io (file_decref host file))
      k0

unfoldable pub load_elf : Host → (eh : ℕ) → CString → Cmd Kernel (Unit {0})
load_elf host eh fn = do
  file ← on_io (file_open host fn 0 0)
  elim file [
    | failed e ↦ halt
    | opened f ↦ do
      ret ← file_pread host f eh ehdr_bytes 0
      kassert (not (is_short ret ehdr_bytes))
      load_program host f eh
  ]
