-- ===== src/Ckpt/Elf/Text.antt =====
-- The code that elf_load.cpp loads.
use boom_stop.Base.{
  ℕ, zero, suc, ◌+◌, ◌-◌, ◌*◌, ◌^◌, ◌≤◌, ◌<◌, ◌≡◌, refl, sym, ◌∙◌, subst, Bool, true, false, ◌&&◌,
  ◌⊎◌, inl, inr, leb, ltb, ◌==◌, arith, Bool-cases, lt→ltb,
}
use boom_stop.Ckpt.{MemRangeInfo, read_le}
use boom_stop.Ckpt.Log.{Agree, Apart, read_le-Agree, fill-Agree}
use boom_stop.Ckpt.Stream.{CkptFile, fread_into, byte_read, seek}
use boom_stop.Ckpt.Elf.{running_info_addr, textinfo, textinfo_at, text_place, load_ranges}

fread_into_byte :
    (addr size k : ℕ) (f : CkptFile) (memory : ℕ → ℕ)
    → k < size
    → f.pos + k < f.size
    → fread_into addr size f memory (addr + k) ≡ f.content (f.pos + k)
fread_into_byte addr size k f memory low there =
    let inside : (leb addr (addr + k) && ltb (addr + k) (addr + size)) ≡ true = ground arith in
    let place : addr + k - addr ≡ k = omega arith in
    let left : ltb (f.pos + k) f.size ≡ true = lt→ltb (f.pos + k) f.size there in
    rw (inside, place, left) refl

-- Where an address of a segment is in the file: as far behind p_offset as it is behind p_vaddr.
abbrev pub segment_place : (phdr : ℕ → ℕ) (addr : ℕ) → ℕ
segment_place phdr addr = read_le phdr 8 8 + (addr - read_le phdr 16 8)

module _ (list : ℕ → ℕ) (numinfos : ℕ) (phdr : ℕ → ℕ) (fp : CkptFile) where
  -- The ranges of the list.
  abbrev pub range : (j : ℕ) → MemRangeInfo
  range j = textinfo list (textinfo_at j)

  abbrev pub list_end : ℕ
  list_end = running_info_addr + 16 * numinfos

  -- The ranges do not overlap each other or their list, they lie behind the start of the segment, and the
  -- file, which is shorter than 2 ^ 64 bytes, has their bytes.
  pub record Loadable : Type 0 where
    pub apart :
        (j : ℕ) → j < numinfos → Apart running_info_addr list_end ((range j).addr) ((range j).size)
    pub separate :
        (j k : ℕ)
        → j < k
        → k < numinfos
        → ((range j).addr + (range j).size ≤ (range k).addr)
          ⊎ ((range k).addr + (range k).size ≤ (range j).addr)
    pub inside :
        (j : ℕ) → j < numinfos → segment_place phdr ((range j).addr) + (range j).size ≤ fp.size
    pub in_segment : (j : ℕ) → j < numinfos → read_le phdr 16 8 ≤ (range j).addr
    pub short : fp.size < 2 ^ 64

  abbrev pub in_range : (j a : ℕ) → Bool
  in_range j a = leb ((range j).addr) a && ltb a ((range j).addr + (range j).size)

  -- The memory has the code of the ranges from `i` on, and elsewhere what it had.
  pub record HasCode (i : ℕ) (memory after : ℕ → ℕ) : Type 0 where
    pub code :
        (j k : ℕ)
        → i ≤ j
        → j < numinfos
        → k < (range j).size
        → after ((range j).addr + k) ≡ fp.content (segment_place phdr ((range j).addr) + k)
    pub others :
        (a : ℕ) → ((j : ℕ) → i ≤ j → j < numinfos → in_range j a ≡ false) → after a ≡ memory a

  placed :
      (j : ℕ)
      → Loadable
      → j < numinfos
      → text_place phdr ((range j).addr) ≡ segment_place phdr ((range j).addr)
  placed j ok low = omega (arith, ok.in_segment j low, ok.inside j low, ok.short)

  -- The loop reads the list in memory.
  step :
      (left i : ℕ) (memory : ℕ → ℕ)
      → Loadable
      → i < numinfos
      → Agree running_info_addr list_end list memory
      → load_ranges (suc left) i phdr fp memory
        ≡ load_ranges left (i + 1) phdr fp (
            fread_into
              ((range i).addr)
              ((range i).size)
              (seek (segment_place phdr ((range i).addr)) fp)
              memory)
  unfolding load_ranges
  step left i memory ok low same =
      let addr =
        read_le-Agree running_info_addr list_end (textinfo_at i) 8 list memory same (omega arith)
          (omega arith) in
      let size =
        read_le-Agree running_info_addr list_end (textinfo_at i + 8) 8 list memory same
          (omega arith) (omega arith) in
      rw (addr, size, placed i ok low) refl

  -- A range and the ones after it.
  more_code :
      (i : ℕ) (memory after : ℕ → ℕ)
      → Loadable
      → i < numinfos
      → HasCode
          (i + 1)
          (fread_into
            ((range i).addr)
            ((range i).size)
            (seek (segment_place phdr ((range i).addr)) fp)
            memory)
          after
      → HasCode i memory after
  more_code i memory after ok low later = record {
    code = λ j k l h s. elim (Bool-cases (i == j)) [
      | inl e ↦
          let q : i ≡ j = ground arith in
          subst
            (λ j.
              k < (range j).size
              → after ((range j).addr + k) ≡ fp.content (segment_place phdr ((range j).addr) + k))
            q
            (λ s.
              later.others ((range i).addr + k)
                (λ j l h. not_in_range i j k s (ok.separate i j (omega arith) h))
              ∙ fread_into_byte ((range i).addr) ((range i).size) k
                  (seek (segment_place phdr ((range i).addr)) fp) memory s
                  (omega (arith, ok.inside i low)))
            s
      | inr n ↦ later.code j k (ground arith) h s
    ];
    others = λ a out.
        later.others a (λ j l h. out j (omega arith) h) ∙ rw (out i (omega arith) low) refl;
  }
    where
      not_in_range :
          (i j k : ℕ)
          → k < (range i).size
          → ((range i).addr + (range i).size ≤ (range j).addr)
            ⊎ ((range j).addr + (range j).size ≤ (range i).addr)
          → in_range j ((range i).addr + k) ≡ false
      not_in_range i j k s (inl before) = ground arith
      not_in_range i j k s (inr behind) = ground arith

  -- The loop over the ranges puts the code of each in its place, and changes no other byte.
  pub load_ranges-HasCode :
      (left i : ℕ) (memory : ℕ → ℕ)
      → Loadable
      → i + left ≡ numinfos
      → Agree running_info_addr list_end list memory
      → HasCode i memory (load_ranges left i phdr fp memory)
  unfolding load_ranges
  load_ranges-HasCode zero i memory ok e same = record {
    code = λ j k l h _. absurd (omega arith);
    others = λ _ _. refl;
  }
  load_ranges-HasCode (suc left) i memory ok e same =
      let low : i < numinfos = omega arith in
      let f = seek (segment_place phdr ((range i).addr)) fp in
      let same1 =
        fill-Agree running_info_addr list_end ((range i).addr) ((range i).size) list memory
          (byte_read (λ k. memory ((range i).addr + k)) f) same (ok.apart i low) in
      let later =
        load_ranges-HasCode left (i + 1) (fread_into ((range i).addr) ((range i).size) f memory) ok
          (omega arith) same1 in
      subst (HasCode i memory) (sym (step left i memory ok low same))
        (more_code i memory _ ok low later)
