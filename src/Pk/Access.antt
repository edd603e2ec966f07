-- ===== src/Pk/Access.antt =====
-- Accesses of the kernel to the memory of the program, which may fault, and the transfers of
-- file.c, which first touch each page of their buffer (`populate_mapping` of mmap.c).
use boom_stop.Base.{
  ℕ, zero, suc, ◌+◌, ◌*◌, ◌/◌, ◌-◌, ◌%◌, ◌^◌, Bool, not, ◌&&◌, ◌||◌, ◌==◌, if◌then◌else◌, u64,
  is_neg, min,
}
use boom_stop.Base.Cmd.{Cmd, ok, pure, kassert, modify, ◌>>=◌, ◌>>◌}
use boom_stop.Pk.Frontend.{Host, Request, request, va2pa}
use boom_stop.Pk.File.{call}
use boom_stop.Pk.Mmap.State.{Kernel, pgsize, set_bytes, on_io}
use boom_stop.Pk.Mmap.Walk.{has_bit, pte_at}
use boom_stop.Pk.Mmap.Prot.{prot_read, prot_write, wants_write}
use boom_stop.Pk.Mmap.Fault.{handle_page_fault, file_pread}

-- What the machine asks of an entry: PTE_V, PTE_R and PTE_A, and for a write PTE_W and PTE_D.
abbrev pub can_access : Kernel → (a prot : ℕ) → Bool
can_access k a prot =
    let pte = pte_at k a in
    has_bit 0 pte
    && has_bit 1 pte
    && has_bit 6 pte
    && (not (wants_write prot) || (has_bit 2 pte && has_bit 7 pte))

-- An access to a page that the machine refuses is a trap, and one that `handle_page_fault` refuses
-- too is the end of the kernel (`segfault` of handlers.c).
unfoldable pub touch : Host → (a prot : ℕ) → Cmd Kernel (Unit {0})
touch host a prot k =
    if can_access k a prot
    then ok tt k
    else (do ret ← handle_page_fault host a prot; kassert (ret == 0)) k

unfoldable pub touch_pages : Host → (prot rounds a : ℕ) → Cmd Kernel (Unit {0})
touch_pages host prot zero a = pure tt
touch_pages host prot (suc rounds) a = do
  touch host a prot
  touch_pages host prot rounds (a + pgsize)

-- ROUNDDOWN(start, RISCV_PGSIZE), and the rounds of the loop from there to `start + size`.
abbrev pub page_start : ℕ → ℕ
page_start start = start / pgsize * pgsize

abbrev pub populate_rounds : (start size : ℕ) → ℕ
populate_rounds start size = (u64 (start + size) + (pgsize - 1) - page_start start) / pgsize

unfoldable pub populate_mapping : Host → (start size prot : ℕ) → Cmd Kernel (Unit {0})
populate_mapping host start size prot =
    touch_pages host prot (populate_rounds start size) (page_start start)

abbrev pub pa_of : Kernel → ℕ → ℕ
pa_of k a = va2pa k.io.first_free_paddr a

abbrev pub kfd_at : Kernel → ℕ → ℕ
kfd_at k f = (k.io.files f).kfd

-- A call to the host at the kernel's state.
abbrev pub ask : Host → (Kernel → Request) → Cmd Kernel ℕ
ask host r k = on_io (call host (r k)) k

-- The host's bytes of a call that reads into `buf`.
unfoldable pub ask_into : Host → (buf size : ℕ) → (Kernel → Request) → Cmd Kernel ℕ
ask_into host buf size r = do
  ret ← ask host r
  modify (λ k.
      if is_neg ret then k else set_bytes (pa_of k buf) (min ret size) (host.bytes k.io.calls) k)
  pure ret

unfoldable pub file_read : Host → (f buf size : ℕ) → Cmd Kernel ℕ
file_read host f buf size = do
  populate_mapping host buf size prot_write
  ask_into host buf size (λ k. request 63 (kfd_at k f) (pa_of k buf) size 0 0 0 0)

unfoldable pub file_pread_user : Host → (f buf size offset : ℕ) → Cmd Kernel ℕ
file_pread_user host f buf size offset = do
  populate_mapping host buf size prot_write
  file_pread host f buf size offset

unfoldable pub file_write : Host → (f buf size : ℕ) → Cmd Kernel ℕ
file_write host f buf size = do
  populate_mapping host buf size prot_read
  ask host (λ k. request 64 (kfd_at k f) (pa_of k buf) size 0 0 0 0)

unfoldable pub file_pwrite : Host → (f buf size offset : ℕ) → Cmd Kernel ℕ
file_pwrite host f buf size offset = do
  populate_mapping host buf size prot_read
  ask host (λ k. request 68 (kfd_at k f) (pa_of k buf) size offset 0 0 0)

unfoldable pub file_truncate : Host → (f len : ℕ) → Cmd Kernel ℕ
file_truncate host f len = ask host (λ k. request 46 (kfd_at k f) len 0 0 0 0 0)

unfoldable pub file_lseek : Host → (f ptr dir : ℕ) → Cmd Kernel ℕ
file_lseek host f ptr dir = ask host (λ k. request 62 (kfd_at k f) ptr dir 0 0 0 0)

-- The byte `i` of a `long`, lowest first.
abbrev pub byte_of : ℕ → ℕ → ℕ
byte_of w i = w / 2 ^ (8 * i) % 2 ^ 8

-- `*(long*)a = w`, at an aligned address of the program.
unfoldable pub put_long : Host → (a w : ℕ) → Cmd Kernel (Unit {0})
put_long host a w = do touch host a prot_write; modify (λ k. set_bytes (pa_of k a) 8 (byte_of w) k)
