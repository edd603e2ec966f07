-- ===== src/Ckpt/Elf.antt =====
-- elf_load.cpp: the code of the program that the checkpoint uses is loaded from the program's file. The
-- structs of the file format are read by the places of their fields. The list of the ranges of code is
-- read into the page that RunningInfo has later. Places in a file are below 2 ^ 63, so that `fseek`
-- does not fail. `none` stands for `exit(1)` where the range is not mapped; a file that is not there
-- is not modelled.
pub mod Text
pub mod Loaded
use boom_stop.Base.{
  ℕ, zero, suc, ◌+◌, ◌-◌, ◌*◌, ◌/◌, ◌%◌, ◌^◌, Bool, true, false, not, ◌&&◌, ◌||◌, Option, none,
  some, bit_and, bit_or, u64, sub64, ◌==◌, if◌then◌else◌,
}
use boom_stop.Ckpt.{MemRangeInfo, read_le}
use boom_stop.Ckpt.Stream.{CkptFile, Os, fread_u64, fread_into, fread_struct, seek, map_zero}

abbrev pub running_info_addr : ℕ
running_info_addr = 0x150000

-- textinfo[i], 16 bytes each.
abbrev pub textinfo : (memory : ℕ → ℕ) (place : ℕ) → MemRangeInfo
textinfo memory place = record {
  addr = read_le memory place 8;
  size = read_le memory (place + 8) 8;
}

abbrev pub textinfo_at : (i : ℕ) → ℕ
textinfo_at i = running_info_addr + 16 * i

-- textinfo[0] and textinfo[numinfos - 1], which for no ranges is in front of the page.
unfoldable pub text_range : (numinfos : ℕ) (memory : ℕ → ℕ) → MemRangeInfo
text_range numinfos memory =
    let first = textinfo memory running_info_addr in
    let last = textinfo memory (running_info_addr + 16 * numinfos - 16) in
    record { addr = first.addr; size = sub64 (last.addr + last.size + 4096) first.addr }

-- Elf64_Ehdr, Elf64_Phdr and Elf64_Shdr.
abbrev pub half : (header : ℕ → ℕ) (place : ℕ) → ℕ
half header place = read_le header place 2

abbrev pub word : (header : ℕ → ℕ) (place : ℕ) → ℕ
word header place = read_le header place 4

abbrev pub xword : (header : ℕ → ℕ) (place : ℕ) → ℕ
xword header place = read_le header place 8

-- PROT_EXEC, PROT_WRITE and PROT_READ are 4, 2 and 1; PF_X, PF_W and PF_R are 1, 2 and 4.
unfoldable pub segment_prot : (p_flags : ℕ) → ℕ
segment_prot p_flags =
    let prot_x = if bit_and p_flags 1 == 0 then 0 else 4 in
    let prot_w = if bit_and p_flags 2 == 0 then 0 else 2 in
    let prot_r = if bit_and p_flags 4 == 0 then 0 else 1 in bit_or (bit_or prot_x prot_w) prot_r

-- PT_LOAD, with bytes in the file, and PROT_EXEC.
abbrev pub is_code_segment : (phdr : ℕ → ℕ) → Bool
is_code_segment phdr =
    word phdr 0 == 1
    && not (xword phdr 40 == 0)
    && not (xword phdr 32 == 0)
    && not (bit_and (segment_prot (word phdr 4)) 4 == 0)

-- The place of a range in the file.
abbrev pub text_place : (phdr : ℕ → ℕ) (addr : ℕ) → ℕ
text_place phdr addr = u64 (sub64 addr (xword phdr 16) + xword phdr 8)

-- The loop over the ranges.
unfoldable pub load_ranges : (left i : ℕ) (phdr : ℕ → ℕ) → CkptFile → (ℕ → ℕ) → (ℕ → ℕ)
load_ranges zero i phdr fp memory = memory
load_ranges (suc left) i phdr fp memory =
    let range = textinfo memory (textinfo_at i) in
    load_ranges left (i + 1) phdr fp
      (fread_into range.addr range.size (seek (text_place phdr range.addr) fp) memory)

-- The loop over the sections, where no ranges are given; SHF_EXECINSTR is 4.
unfoldable pub load_sections : (left c : ℕ) (ehdr shdr : ℕ → ℕ) → CkptFile → (ℕ → ℕ) → (ℕ → ℕ)
load_sections zero c ehdr shdr fp memory = memory
load_sections (suc left) c ehdr shdr fp memory =
    let next = fread_struct 64 shdr (seek (xword ehdr 40 + c * half ehdr 58) fp) in
    load_sections left (c + 1) ehdr next fp (
      if xword next 32 == 0 || bit_and (xword next 8) 4 == 0
      then memory
      else fread_into (xword next 16) (xword next 32) (seek (xword next 24) fp) memory)

-- The loop over the program headers, which ends at the first with code.
unfoldable pub load_headers :
    (numinfos left i : ℕ) (ehdr phdr shdr : ℕ → ℕ) → CkptFile → (ℕ → ℕ) → (ℕ → ℕ)
load_headers numinfos zero i ehdr phdr shdr fp memory = memory
load_headers numinfos (suc left) i ehdr phdr shdr fp memory =
    let next = fread_struct 56 phdr (seek (xword ehdr 32 + i * half ehdr 54) fp) in
    let rest = load_headers numinfos left (i + 1) ehdr next shdr fp in
    (if not (is_code_segment next)
        then rest
        else if numinfos == 0
        then load_sections (half ehdr 60) 0 ehdr shdr fp
        else load_ranges numinfos 0 next fp)
      memory

-- The structs before they are read, the files of the checkpoint and of the program, and memory.
unfoldable pub loadelf :
    Os → (ehdr phdr shdr : ℕ → ℕ) (fp1 fp : CkptFile) → (ℕ → ℕ) → Option (ℕ → ℕ)
loadelf kernel ehdr phdr shdr fp1 fp memory =
    let num = fread_u64 0 fp1 in
    let listed = fread_into running_info_addr (16 * num.0) (num.1) memory in
    let text_seg = text_range (num.0) listed in
    let header = fread_struct 64 ehdr fp in
    if kernel.fixed text_seg.addr text_seg.size == text_seg.addr
    then some (
        load_headers (num.0) (half header 56) 0 header phdr shdr fp
          (map_zero text_seg.addr text_seg.size listed))
    else none
