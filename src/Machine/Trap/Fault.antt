-- ===== src/Machine/Trap/Fault.antt =====
-- machine/mtrap.c: the traps that are handed on to supervisor mode.
use boom_stop.Base.{
  ℕ, ◌-◌, ◌*◌, ◌/◌, ◌^◌, ◌||◌, Option, none, some, bit_and, bit_or, u64, ◌==◌, if◌then◌else◌,
}
use boom_stop.Base.Cmd.{Cmd, ok, panic}
use boom_stop.Machine.Trap.{HartState}

abbrev pub mstatus_sie : ℕ
mstatus_sie = 0x2

abbrev pub mstatus_spie : ℕ
mstatus_spie = 0x20

abbrev pub mstatus_spp : ℕ
mstatus_spp = 0x100

abbrev pub mstatus_mpp : ℕ
mstatus_mpp = 0x1800

abbrev pub mstatus_mprv : ℕ
mstatus_mprv = 0x20000

abbrev pub mstatus_mxr : ℕ
mstatus_mxr = 0x80000

-- The status that `redirect_trap` writes. MSTATUS_SPP | MSTATUS_SPIE | MSTATUS_SIE is 0x122.
unfoldable pub redirected_status : ℕ → ℕ
redirected_status mstatus =
    let mpp_s = bit_and mstatus_mpp (mstatus_mpp / 2) in
    bit_or
      (bit_or
        (bit_or (bit_and mstatus (2 ^ 64 - 1 - 0x122))
          (bit_and (u64 (mstatus * (mstatus_spie / mstatus_sie))) mstatus_spie))
        (bit_and (mstatus / (mpp_s / mstatus_spp)) mstatus_spp))
      mpp_s

unfoldable pub redirect_trap : (epc mstatus badaddr : ℕ) → HartState → HartState
unfolding redirected_status
redirect_trap epc mstatus badaddr h = record h {
  sbadaddr = badaddr;
  sepc = epc;
  scause = h.mcause;
  mepc = h.stvec;
  mstatus = redirected_status mstatus;
}

unfoldable pub pmp_trap : (mepc : ℕ) → HartState → HartState
unfolding redirect_trap
pmp_trap mepc h = redirect_trap mepc h.mstatus h.mbadaddr h

abbrev pub cause_fetch_access : ℕ
cause_fetch_access = 1

abbrev pub cause_load_access : ℕ
cause_load_access = 5

abbrev pub cause_store_access : ℕ
cause_store_access = 7

abbrev pub cause_fetch_page_fault : ℕ
cause_fetch_page_fault = 12

abbrev pub cause_load_page_fault : ℕ
cause_load_page_fault = 13

abbrev pub cause_store_page_fault : ℕ
cause_store_page_fault = 15

-- The cause that is reported, from that of the trap and the register that tells what was emulated.
unfoldable pub reported_cause : (a1 mcause : ℕ) → Option ℕ
reported_cause a1 mcause =
    if a1 == bit_or mstatus_mprv mstatus_mxr
    then (if mcause == cause_load_page_fault
        then some cause_fetch_page_fault
        else if mcause == cause_load_access
        then some cause_fetch_access
        else none)
    else if a1 == mstatus_mprv
    then some mcause
    else none

unfoldable pub machine_page_fault : (mcause : ℕ) → Cmd HartState (Unit {0})
unfolding reported_cause redirect_trap
machine_page_fault mcause h =
    if bit_and h.mstatus mstatus_mprv == 0
    then panic
    else elim (reported_cause (h.regs 11) mcause) [
      | none ↦ panic
      | some cause ↦
          ok tt (redirect_trap (h.regs 12) (h.regs 13) h.mbadaddr (record h { mcause = cause }))
    ]

unfoldable pub trap_from_machine_mode : Cmd HartState (Unit {0})
unfolding machine_page_fault
trap_from_machine_mode h =
    if h.mcause == cause_load_page_fault
      || h.mcause == cause_store_page_fault
      || h.mcause == cause_fetch_access
      || h.mcause == cause_load_access
      || h.mcause == cause_store_access
    then machine_page_fault h.mcause h
    else panic
