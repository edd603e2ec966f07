-- ===== src/Pk/Mmap/Protect.antt =====
-- mprotect. An unfilled page carries its protection in its region, which other pages share.
pub mod Spill
use boom_stop.Base.{
  ℕ, zero, suc, ◌+◌, ◌-◌, ◌^◌, Bool, true, false, not, ◌&&◌, ◌||◌, none, some, ◌==◌, if◌then◌else◌,
  u32, neg, bit_and, bit_xor,
}
use boom_stop.Base.Cmd.{Cmd, ok, pure, ◌>>=◌, ◌>>◌}
use boom_stop.Pk.Frontend.{einval, enomem, eacces}
use boom_stop.Pk.Mmap.State.{
  Vmr, Kernel, pgsize, vmr_index, set_word, set_vmr, spinlock_lock, spinlock_unlock,
}
use boom_stop.Pk.Mmap.Walk.{walk, is_valid, has_bit, pte_create, pte_ppn}
use boom_stop.Pk.Mmap.Prot.{prot_to_type, wants_read, wants_write, wants_exec}
use boom_stop.Pk.Mmap.Map.{page_offset, page_rounds}

-- (old ^ new) & ~old, on the bits of an `int`.
abbrev pub added_prot : (old new : ℕ) → ℕ
added_prot old new = bit_and (bit_xor (u32 old) (u32 new)) (2 ^ 32 - 1 - u32 old)

-- The bits of a filled page's entry: PTE_R 1, PTE_W 2, PTE_X 3, PTE_U 4.
abbrev pub lacks : (pte prot : ℕ) → Bool
lacks pte prot =
    not (has_bit 4 pte)
    || (wants_read prot && not (has_bit 1 pte))
    || (wants_write prot && not (has_bit 2 pte))
    || (wants_exec prot && not (has_bit 3 pte))

-- The body of the loop: 0, or the error that ends it.
unfoldable pub protect_page : (a prot : ℕ) → Cmd Kernel ℕ
protect_page a prot k = elim (walk k a) [
  | none ↦ ok (neg enomem) k
  | some e ↦
      let pte = k.mem e in
      let i = vmr_index k pte in
      let v = k.vmr i in
      if pte == 0
      then ok (neg enomem) k
      else if is_valid pte
      then (if lacks pte prot
          then ok (neg eacces) k
          else ok 0 (set_word e (pte_create (pte_ppn pte) (prot_to_type prot true)) k))
      else (if added_prot v.prot prot == 0
          then ok 0 (set_vmr i (record v { prot = prot }) k)
          else ok (neg eacces) k)
]

unfoldable pub protect_pages : (prot rounds a : ℕ) → Cmd Kernel ℕ
protect_pages prot zero a = pure 0
protect_pages prot (suc rounds) a = do
  res ← protect_page a prot
  if res == 0 then protect_pages prot rounds (a + pgsize) else pure res

unfoldable pub do_mprotect : (addr length prot : ℕ) → Cmd Kernel ℕ
unfolding spinlock_lock spinlock_unlock
do_mprotect addr length prot = if not (page_offset addr == 0) then pure (neg einval) else do
  spinlock_lock
  res ← protect_pages prot (page_rounds addr length) addr
  spinlock_unlock
  pure res
