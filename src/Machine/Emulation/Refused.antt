-- ===== src/Machine/Emulation/Refused.antt =====
-- The instructions that trap as illegal and are handed on to supervisor mode.
use boom_stop.Base.{
  ℕ, ◌+◌, ◌/◌, ◌%◌, ◌≡◌, refl, ◌∙◌, Bool, true, false, Option, none, some, ◌==◌, if◌then◌else◌,
  arith, u64, inl, inr, Bool-cases,
}
use boom_stop.Machine.Muldiv.{Library}
use boom_stop.Machine.Trap.{bit}
use boom_stop.Machine.Trap.Fault.{redirect_trap}
use boom_stop.Machine.Emulation.{
  Platform, Counters, FpEmulation, illegal_insn_trap, illegal_insn_trap_table, truly_illegal_insn,
  emulate_system_opcode, emulate_read_csr, csr_number, previous_mode, counter_mask, csr_cycle,
  csr_time, csr_instret, csr_mhpmcounter3, csr_mhpmcounter4,
}

-- The bit of a counter in the register that enables it.
abbrev pub counter_index : ℕ → Option ℕ
counter_index csr =
    if csr == csr_cycle
    then some 0
    else if csr == csr_time
    then some 1
    else if csr == csr_instret
    then some 2
    else if csr == csr_mhpmcounter3
    then some 3
    else if csr == csr_mhpmcounter4
    then some 4
    else none

-- The instruction, from where the hart or the program's memory has it.
abbrev pub trapped : Platform → ℕ
trapped p = if p.hart.mbadaddr == 0 then p.insn_at p.hart.mepc else p.hart.mbadaddr

abbrev pub refused : Platform → Platform
refused p = record p { hart = redirect_trap p.hart.mepc p.hart.mstatus (trapped p) p.hart }

emulate_read_csr-hidden :
    (csr mstatus i : ℕ) (c : Counters)
    → previous_mode mstatus ≡ 0
    → counter_index csr ≡ some i
    → bit i c.scounteren ≡ false
    → emulate_read_csr csr mstatus c ≡ none
unfolding emulate_read_csr
emulate_read_csr-hidden csr mstatus i c user index off =
    let mask : counter_mask mstatus c ≡ c.scounteren = rw user refl in
    elim (Bool-cases (csr == csr_cycle)) [
      | inl a ↦ (let k : i ≡ 0 = ground arith in rw (a, mask, rw k at off) refl)
      | inr a ↦ elim (Bool-cases (csr == csr_time)) [
        | inl b ↦ (let k : i ≡ 1 = ground arith in rw (a, b, mask, rw k at off) refl)
        | inr b ↦ elim (Bool-cases (csr == csr_instret)) [
          | inl d ↦ (let k : i ≡ 2 = ground arith in rw (a, b, d, mask, rw k at off) refl)
          | inr d ↦ elim (Bool-cases (csr == csr_mhpmcounter3)) [
            | inl e ↦ (let k : i ≡ 3 = ground arith in rw (a, b, d, e, mask, rw k at off) refl)
            | inr e ↦ elim (Bool-cases (csr == csr_mhpmcounter4)) [
              | inl f ↦ (let k : i ≡ 4 = ground arith in rw (a, b, d, e, f, mask, rw k at off) refl)
              | inr f ↦ absurd (ground arith)
            ]
          ]
        ]
      ]
    ]

module _ (has_muldiv : Bool) (library : Library) (fp : FpEmulation) where
  -- A system instruction goes to its own function, behind the instruction.
  pub illegal_insn_trap-system :
      (p : Platform)
      → trapped p % 128 ≡ 0x73
      → illegal_insn_trap has_muldiv library fp p
        ≡ emulate_system_opcode p.hart.mepc p.hart.mstatus
            (trapped p)
            (record p { hart = record (p.hart) { mepc = u64 (p.hart.mepc + 4) } })
  unfolding illegal_insn_trap illegal_insn_trap_table
  illegal_insn_trap-system p e =
      let low : (trapped p % 4 == 3) ≡ true = ground arith in
      let entry : trapped p / 4 % 32 ≡ 28 = omega arith in rw (low, entry) refl

  -- In user mode, every system instruction on a counter that the supervisor has not enabled is
  -- handed on to the supervisor with the instruction and its place, and nothing else is changed.
  pub illegal_insn_trap-hidden :
      (p : Platform) (i : ℕ)
      → trapped p % 128 ≡ 0x73
      → counter_index (csr_number (trapped p)) ≡ some i
      → previous_mode p.hart.mstatus ≡ 0
      → bit i p.counters.scounteren ≡ false
      → illegal_insn_trap has_muldiv library fp p ≡ refused p
  unfolding emulate_system_opcode truly_illegal_insn redirect_trap
  illegal_insn_trap-hidden p i e index user off =
      let none_read =
        emulate_read_csr-hidden (csr_number (trapped p)) p.hart.mstatus i p.counters user index
          off in
      illegal_insn_trap-system p e ∙ rw (none_read, emulate_system_opcode) refl
