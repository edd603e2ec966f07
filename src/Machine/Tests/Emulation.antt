-- ===== src/Machine/Tests/Emulation.antt =====
-- The theorems on the emulation of instructions, at concrete platforms.
use boom_stop.Base.{ℕ, ◌-◌, ◌^◌, ◌<◌, ◌≡◌, refl, true, ◌==◌, if◌then◌else◌, arith}
use boom_stop.Machine.Muldiv.{Library}
use boom_stop.Machine.Emulation.{Platform, FpEmulation, illegal_insn_trap, csr_mhpmcounter3}
use boom_stop.Machine.Emulation.Refused.{refused, illegal_insn_trap-hidden}
use boom_stop.Machine.Emulation.Csr.{stored, counter3, csrrc}
use boom_stop.Machine.Emulation.Csr.Done.{Done, illegal_insn_trap-Done}

abbrev zeros : Library
zeros = record {
  div_zero = λ _. 2 ^ 64 - 1;
  divu_zero = λ _. 2 ^ 64 - 1;
  rem_zero = λ a. a;
  remu_zero = λ a. a;
}

abbrev fp : FpEmulation
fp = record { emulate_fmadd = λ _ _ _ p. p; emulate_fp = λ _ _ _ p. p }

-- A program in user mode, with x10 = 5, at an instruction that trapped.
abbrev at_insn : (insn scounteren : ℕ) → Platform
at_insn insn scounteren = record {
  hart = record {
    regs = λ i. if i == 10 then 5 else 0;
    hartid = 0;
    mstatus = 0;
    mcause = 2;
    mepc = 0x10000;
    mbadaddr = insn;
    mip = 0;
    mie = 0;
    stvec = 0x80200000;
    sepc = 0;
    scause = 0;
    sbadaddr = 0;
    hart_mask = 1;
    disabled_hart_mask = 0;
    user_word = λ _. 0;
    mipi_pending = λ _. 0;
    ipi = λ _. 0;
    timecmp = λ _. 0;
  };
  counters = record {
    mcycle = 1000;
    minstret = 500;
    mtime = 7;
    mhpmcounter3 = 13;
    mhpmcounter4 = 0;
    mhpmevent3 = 0;
    mhpmevent4 = 0;
    scounteren = scounteren;
  };
  insn_at = λ _. 0;
}

at_insn-small : (i : ℕ) → (if i == 10 then 5 else 0) < 2 ^ 64
at_insn-small i = ground arith

-- csrrc x11, mhpmcounter3, x10 leaves 13 & ~5 = 8.
clear_bits :
    stored csr_mhpmcounter3 ((illegal_insn_trap true zeros fp (at_insn 0xb03535f3 8)).counters) ≡ 8
unfolding illegal_insn_trap boom_stop.Machine.Emulation.illegal_insn_trap_table
    boom_stop.Machine.Emulation.emulate_system_opcode boom_stop.Machine.Emulation.emulate_read_csr
    boom_stop.Machine.Emulation.new_csr_val boom_stop.Machine.Emulation.write_back
    boom_stop.Machine.Emulation.emulate_write_csr
clear_bits = refl

illegal_insn_trap-Done_example :
    Done 0xb03535f3 (at_insn 0xb03535f3 8) (illegal_insn_trap true zeros fp (at_insn 0xb03535f3 8))
illegal_insn_trap-Done_example =
    illegal_insn_trap-Done true zeros fp (at_insn 0xb03535f3 8) refl counter3 csrrc refl refl
      at_insn-small

-- rdcycle x11, which the supervisor does not allow.
illegal_insn_trap-hidden_example :
    illegal_insn_trap true zeros fp (at_insn 0xc00025f3 0xe) ≡ refused (at_insn 0xc00025f3 0xe)
illegal_insn_trap-hidden_example =
    illegal_insn_trap-hidden true zeros fp (at_insn 0xc00025f3 0xe) 0 refl refl refl refl
