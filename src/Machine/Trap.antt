-- ===== src/Machine/Trap.antt =====
-- machine/mtrap.c: the requests to machine mode and interrupts between harts. `HartState` has the registers and control registers of the hart that
-- runs, and of each hart what its `hls_t` and its devices hold. `clear_csr` and `set_csr` give the
-- value before. Barriers have no effect on the state; `Console` stands for the driver of the console,
-- and `others` for what the other harts do in a round of a wait.
pub mod Fault
pub mod Redirect
pub mod Sent
use boom_stop.Base.{
  ℕ, zero, suc, ◌+◌, ◌-◌, ◌*◌, ◌/◌, ◌%◌, ◌^◌, Bool, true, false, not, ◌&&◌, ◌||◌, Option, none,
  some, update, bit_and, bit_or, u64, u32, ltb, ◌==◌, neg, if◌then◌else◌,
}
use boom_stop.Base.Cmd.{Cmd, ok, panic, pure, halt, modify, ◌>>=◌, ◌>>◌}
use boom_stop.Machine.Muldiv.{Regs}

pub record HartState : Type 0 where
  pub regs : Regs
  pub hartid : ℕ
  pub mstatus : ℕ
  pub mcause : ℕ
  pub mepc : ℕ
  pub mbadaddr : ℕ
  pub mip : ℕ
  pub mie : ℕ
  pub stvec : ℕ
  pub sepc : ℕ
  pub scause : ℕ
  pub sbadaddr : ℕ
  pub hart_mask : ℕ
  pub disabled_hart_mask : ℕ
  pub user_word : ℕ → ℕ
  pub mipi_pending : ℕ → ℕ
  pub ipi : ℕ → ℕ
  pub timecmp : ℕ → ℕ

-- die, and the end of `poweroff`.
abbrev pub die : {A : Type 0} → Cmd HartState A
die = halt

-- uart, uart16550 or htif, or none of them.
pub record Console : Type 0 where
  pub putchar : ℕ → HartState → HartState
  pub getchar : Cmd HartState ℕ

abbrev pub ipi_soft : ℕ
ipi_soft = 1

abbrev pub ipi_fence_i : ℕ
ipi_fence_i = 2

abbrev pub ipi_sfence_vma : ℕ
ipi_sfence_vma = 4

-- Bit `i` of a word.
abbrev pub bit : (i word : ℕ) → Bool
bit zero word = word % 2 == 1
bit (suc i) word = bit i (word / 2)

unfoldable pub send_ipi : (recipient event : ℕ) → HartState → HartState
send_ipi recipient event h = if bit recipient h.disabled_hart_mask then h else record h {
  mipi_pending = update h.mipi_pending recipient (bit_or (h.mipi_pending recipient) event);
  ipi = update h.ipi recipient 1;
}

-- for (i, m = mask; m; i++, m >>= 1), with a round for each bit of a register; the rounds that are
-- left when `m` is 0 change nothing.
unfoldable pub send_all : (rounds event i m : ℕ) → HartState → HartState
send_all zero event i m h = h
send_all (suc rounds) event i m h =
    send_all rounds event (i + 1) (m / 2) (if m % 2 == 1 then send_ipi i event h else h)

-- while (*OTHER_HLS(i)->ipi) incoming_ipi |= atomic_swap(HLS()->ipi, 0), a wait that never ends if it
-- has not after `fuel` rounds.
unfoldable pub wait_one : (others : HartState → HartState) (fuel i incoming : ℕ) → Cmd HartState ℕ
wait_one others zero i incoming h = panic
wait_one others (suc fuel) i incoming h =
    let seen = u32 (bit_or incoming (h.ipi h.hartid)) in
    (if h.ipi i == 0 then pure incoming else λ g.
    wait_one others fuel i seen (others (record g { ipi = update g.ipi g.hartid 0 })))
      h

unfoldable pub wait_all :
    (others : HartState → HartState) (fuel rounds i m incoming : ℕ) → Cmd HartState ℕ
wait_all others fuel zero i m incoming = pure incoming
wait_all others fuel (suc rounds) i m incoming = do
  seen ← if m % 2 == 1 then wait_one others fuel i incoming else pure incoming
  wait_all others fuel rounds (i + 1) (m / 2) seen

-- The harts that a request is for; a mask at address 0 is no mask.
abbrev pub recipients : (pmask : ℕ) → HartState → ℕ
recipients pmask h = if pmask == 0 then h.hart_mask else bit_and h.hart_mask (h.user_word pmask)

unfoldable pub send_ipi_many :
    (others : HartState → HartState) (fuel pmask event : ℕ) → Cmd HartState (Unit {0})
send_ipi_many others fuel pmask event h =
    let mask = recipients pmask h in
    (do
      modify (send_all 64 event 0 mask)
      if event == ipi_soft then pure tt else do
        incoming ← wait_all others fuel 64 0 mask 0
        modify
            (λ g. if incoming == 0 then g else record g { ipi = update g.ipi g.hartid incoming }))
      h

abbrev pub mip_ssip : ℕ
mip_ssip = 2

abbrev pub mip_stip : ℕ
mip_stip = 32

abbrev pub mip_mtip : ℕ
mip_mtip = 128

-- clear_csr(mip, bits) for a single bit.
abbrev clear_bit : (word mask : ℕ) → ℕ
clear_bit word mask = if bit_and word mask == 0 then word else word - mask

unfoldable pub mcall_clear_ipi : Cmd HartState ℕ
mcall_clear_ipi h = ok (bit_and h.mip mip_ssip) (record h { mip = clear_bit h.mip mip_ssip })

unfoldable pub mcall_set_timer : (when : ℕ) → Cmd HartState ℕ
mcall_set_timer when h = ok 0 (record h {
  timecmp = update h.timecmp h.hartid when;
  mip = clear_bit h.mip mip_stip;
  mie = bit_or h.mie mip_mtip;
})

-- `mcall_trap`; SBI_SHUTDOWN does not return. ENOSYS is 38.
unfoldable pub mcall_trap :
    (console : Console) (others : HartState → HartState) (fuel : ℕ) → Cmd HartState (Unit {0})
mcall_trap console others fuel start =
    let n = start.regs 17 in
    let arg0 = start.regs 10 in
    (do
      modify (λ h. record h { mepc = u64 (h.mepc + 4) })
      retval ←
          if n == 1
          then (λ h. ok 0 (console.putchar (arg0 % 2 ^ 8) h))
          else if n == 2
          then console.getchar
          else if n == 4
          then send_ipi_many others fuel arg0 ipi_soft >> pure 0
          else if n == 6 || n == 7
          then send_ipi_many others fuel arg0 ipi_sfence_vma >> pure 0
          else if n == 5
          then send_ipi_many others fuel arg0 ipi_fence_i >> pure 0
          else if n == 3
          then mcall_clear_ipi
          else if n == 8
          then die
          else if n == 0
          then mcall_set_timer arg0
          else pure (neg 38)
      modify (λ h. record h { regs = update h.regs 10 retval }))
      start
