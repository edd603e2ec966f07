-- ===== src/Pk/Mmap/Fault/Frame.antt =====
-- What a page holds after its first fault.
use boom_stop.Base.{
  ℕ, ◌+◌, ◌<◌, ◌≤◌, ◌≡◌, refl, ◌⊎◌, inl, inr, true, false, none, some, ltb, if◌then◌else◌, u64,
  sub64, is_neg, min, ◌∷◌, arith, Option-cases,
}
use boom_stop.Base.Cmd.{Returns, returns}
use boom_stop.Pk.Frontend.{Host, Request, va2pa}
use boom_stop.Pk.File.{Io}
use boom_stop.Pk.Mmap.State.{Vmr, Kernel, pgsize}
use boom_stop.Pk.Mmap.Fault.{fill_frame, pread_request}

-- The call that reads a page of a file, and the host's answer.
abbrev pub page_request : Vmr → (vaddr f : ℕ) → Io → Request
page_request v vaddr f io =
    pread_request io f vaddr (min pgsize (sub64 v.length (sub64 vaddr v.addr)))
      (u64 (sub64 vaddr v.addr + v.offset))

abbrev pub read_count : Host → Vmr → (vaddr f : ℕ) → Io → ℕ
read_count host v vaddr f io = u64 (host.answer (page_request v vaddr f io ∷ io.calls))

-- Byte `j` of the page: 0, or the bytes of the file as far as the host gave some, and then 0.
abbrev pub content : Host → Vmr → (vaddr : ℕ) → Io → ℕ → ℕ
content host v vaddr io j = elim v.file [
  | none ↦ 0
  | some f ↦
      if ltb j (read_count host v vaddr f io)
      then host.bytes (page_request v vaddr f io ∷ io.calls) j
      else 0
]

-- The host reads something, and no more than it was asked for.
abbrev pub Reads : Host → Vmr → (vaddr : ℕ) → Io → Type 0
Reads host v vaddr io =
    (f : ℕ)
    → v.file ≡ some f
    → (0 < read_count host v vaddr f io)
      × (read_count host v vaddr f io ≤ min pgsize (sub64 v.length (sub64 vaddr v.addr)))

pub record Filled (host : Host) (v : Vmr) (vaddr pa : ℕ) (k k' : Kernel) : Type 0 where
  pub inside : (j : ℕ) → j < pgsize → k'.byte (pa + j) ≡ content host v vaddr k.io j
  pub outside : (a : ℕ) → (a < pa) ⊎ (pa + pgsize ≤ a) → k'.byte a ≡ k.byte a
  pub same_mem : k'.mem ≡ k.mem
  pub same_vmr : k'.vmr ≡ k.vmr
  pub same_files : k'.io.files ≡ k.io.files
  pub same_fds : k'.io.fds ≡ k.io.fds

-- A page of a file: `n` bytes that the host gives, and zeros behind them.
module _ (host : Host) (v : Vmr) (vaddr f : ℕ) (k : Kernel) (e : v.file ≡ some f) where
  abbrev n : ℕ
  n = read_count host v vaddr f k.io

  abbrev pa : ℕ
  pa = va2pa k.io.first_free_paddr vaddr

  fill_file-Filled :
      0 < n
      → n ≤ min pgsize (sub64 v.length (sub64 vaddr v.addr))
      → Returns (λ _ k'. Filled host v vaddr pa k k') (fill_frame host v vaddr pa k)
  unfolding fill_frame
  fill_file-Filled pos le =
      let plus : is_neg n ≡ false = ground arith in
      let more : ltb 0 n ≡ true = ground arith in
      rw (e, fill_frame, plus, more)
        (returns (record {
          inside = λ j h. ground arith;
          outside = λ a h. ground arith;
          same_mem = ground arith;
          same_vmr = ground arith;
          same_files = ground arith;
          same_fds = ground arith;
        }))

pub fill_frame-Filled :
    (host : Host) (v : Vmr) (vaddr : ℕ) (k : Kernel)
    → Reads host v vaddr k.io
    → let pa = va2pa k.io.first_free_paddr vaddr in
      Returns (λ _ k'. Filled host v vaddr pa k k') (fill_frame host v vaddr pa k)
unfolding fill_frame
fill_frame-Filled host v vaddr k reads = elim (Option-cases v.file) [
  | inl e ↦
      rw (e, fill_frame)
        (returns (record {
          inside = λ j h. ground arith;
          outside = λ a h. ground arith;
          same_mem = refl;
          same_vmr = refl;
          same_files = refl;
          same_fds = refl;
        }))
  | inr (f, e) ↦ fill_file-Filled host v vaddr f k e (reads f e).0 (reads f e).1
]
