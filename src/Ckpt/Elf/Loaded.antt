-- ===== src/Ckpt/Elf/Loaded.antt =====
-- What `loadelf` leaves in memory, from the two files.
use boom_stop.Base.{
  ℕ, zero, suc, ◌+◌, ◌*◌, ◌≤◌, ◌<◌, ◌≡◌, refl, ap, true, false, inl, inr, ◌==◌, ==_self, arith,
  Bool-cases, some,
}
use boom_stop.Ckpt.{MemRangeInfo}
use boom_stop.Ckpt.Log.{Apart, fill-Agree}
use boom_stop.Ckpt.Stream.{CkptFile, Os, fread_u64, fread_into, seek, fread_struct, map_zero}
use boom_stop.Ckpt.Elf.{
  running_info_addr, text_range, load_ranges, load_headers, loadelf, is_code_segment, xword, half,
}
use boom_stop.Ckpt.Elf.Text.{Loadable, HasCode, load_ranges-HasCode}

-- The struct that the program headers are read into, after `i` of them.
abbrev pub headers_read : (ehdr phdr : ℕ → ℕ) → CkptFile → (i : ℕ) → (ℕ → ℕ)
headers_read ehdr phdr fp zero = phdr
headers_read ehdr phdr fp (suc i) =
    fread_struct 56 (headers_read ehdr phdr fp i) (seek (xword ehdr 32 + i * half ehdr 54) fp)

-- Header number `h` is the first of a segment with code.
pub record FirstCode (ehdr phdr : ℕ → ℕ) (fp : CkptFile) (h : ℕ) : Type 0 where
  pub present : h < half ehdr 56
  pub is_code : is_code_segment (headers_read ehdr phdr fp (suc h)) ≡ true
  pub earlier : (k : ℕ) → k < h → is_code_segment (headers_read ehdr phdr fp (suc k)) ≡ false

module _ (numinfos : ℕ) (ehdr phdr shdr : ℕ → ℕ) (fp : CkptFile) (h : ℕ) where
  load_headers_first :
      (left i : ℕ) (buf memory : ℕ → ℕ)
      → FirstCode ehdr phdr fp h
      → 1 ≤ numinfos
      → buf ≡ headers_read ehdr phdr fp i
      → i ≤ h
      → h < i + left
      → load_headers numinfos left i ehdr buf shdr fp memory
        ≡ load_ranges numinfos 0 (headers_read ehdr phdr fp (suc h)) fp memory
  unfolding load_headers
  load_headers_first zero i buf memory first some_infos e above below = absurd (omega arith)
  load_headers_first (suc left) i buf memory first some_infos e above below =
      elim (Bool-cases (i == h)) [
        | inl q ↦
            let here : i ≡ h = ground arith in
            let infos : (numinfos == 0) ≡ false = ground arith in
            let code : is_code_segment (headers_read ehdr phdr fp (suc i)) ≡ true =
              rw here first.is_code in
            rw (e, code, infos)
              (ap (λ i. load_ranges numinfos 0 (headers_read ehdr phdr fp (suc i)) fp memory) here)
        | inr n ↦
            let skip = first.earlier i (ground arith) in
            rw (e, skip)
              (load_headers_first left (i + 1) (headers_read ehdr phdr fp (suc i)) memory first
                some_infos
                (let next : suc i ≡ i + 1 = omega arith in ap (headers_read ehdr phdr fp) next)
                (ground arith) (omega arith))
      ]

module _ (kernel : Os) (ehdr phdr shdr : ℕ → ℕ) (fp1 fp : CkptFile) (memory : ℕ → ℕ) where
  -- The number of ranges, and the memory with their list.
  abbrev pub infos_read : ℕ
  infos_read = (fread_u64 0 fp1).0

  abbrev pub listed : ℕ → ℕ
  listed = fread_into running_info_addr (16 * infos_read) ((fread_u64 0 fp1).1) memory

  abbrev pub text_seg : MemRangeInfo
  text_seg = text_range infos_read listed

  abbrev pub header_read : ℕ → ℕ
  header_read = fread_struct 64 ehdr fp

  -- With text ranges that do not overlap each other or their list, that lie behind the p_vaddr of the
  -- first program header with code and in the file, which is shorter than 2 ^ 64 bytes, and a range for
  -- them that could be mapped apart from the list, loadelf returns with the bytes of each range at its
  -- address, taken from as far behind p_offset of that header as the range is behind p_vaddr, and every
  -- other byte as mapping left it.
  pub loadelf-HasCode :
      (h : ℕ)
      → 1 ≤ infos_read
      → kernel.fixed text_seg.addr text_seg.size ≡ text_seg.addr
      → Apart running_info_addr (running_info_addr + 16 * infos_read) text_seg.addr text_seg.size
      → FirstCode header_read phdr fp h
      → Loadable listed infos_read (headers_read header_read phdr fp (suc h)) fp
      → (after : ℕ → ℕ) × (loadelf kernel ehdr phdr shdr fp1 fp memory ≡ some after)
        × HasCode listed infos_read
            (headers_read header_read phdr fp (suc h))
            fp
            0
            (map_zero text_seg.addr text_seg.size listed)
            after
  unfolding loadelf
  loadelf-HasCode h some_infos mapped apart first ok =
      let same =
        fill-Agree running_info_addr (running_info_addr + 16 * infos_read) text_seg.addr
          text_seg.size listed listed (λ _. 0) (λ a l b. refl) apart in
      let placed : (kernel.fixed text_seg.addr text_seg.size == text_seg.addr) ≡ true =
        rw mapped (==_self text_seg.addr) in
      let start = map_zero text_seg.addr text_seg.size listed in
      (
        load_ranges infos_read 0 (headers_read header_read phdr fp (suc h)) fp start,
        rw placed (
            ap some (
              load_headers_first infos_read header_read phdr shdr fp h (half header_read 56) 0 phdr
                start first some_infos refl (omega arith) (omega (arith, first.present)))),
        load_ranges-HasCode listed infos_read (headers_read header_read phdr fp (suc h)) fp
            infos_read 0 start ok (omega arith) same,
      )
