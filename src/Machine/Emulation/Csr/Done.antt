-- ===== src/Machine/Emulation/Csr/Done.antt =====
-- The instructions on control registers that machine/emulation.c emulates, from the trap on.
use boom_stop.Base.{
  ℕ, ◌+◌, ◌%◌, ◌^◌, ◌<◌, ◌≡◌, refl, ◌∙◌, sym, subst, Bool, true, false, ◌&&◌, ◌||◌, not, some, ◌==◌,
  arith, u64, inl, inr, Bool-cases, update, ap,
}
use boom_stop.Machine.Muldiv.{Library, source1, target}
use boom_stop.Machine.Trap.{bit}
use boom_stop.Machine.Trap.Redirect.{bit_zero}
use boom_stop.Machine.Emulation.{
  Platform, Counters, FpEmulation, illegal_insn_trap, set_rd, emulate_system_opcode,
  emulate_read_csr, write_back, new_csr_val, csr_number, rounding_mode,
}
use boom_stop.Machine.Emulation.Refused.{trapped, illegal_insn_trap-system}
use boom_stop.Machine.Emulation.Csr.{
  stored, Writable, Operation, permitted, operand, csr_bit, emulate_read_csr-permitted,
  emulate_write_csr-Set, new_csr_val-bits,
}

csr_bit_none : (rm : ℕ) (b : Bool) → (rm % 4 == 1) ≡ false → csr_bit rm b false ≡ b
csr_bit_none rm b e = elim (Bool-cases (rm % 4 == 2)) [
  | inl t ↦ rw (e, t) (or_false b)
  | inr f ↦ rw (e, f) (and_true b)
]
  where
    or_false : (b : Bool) → (b || false) ≡ b
    or_false true = refl
    or_false false = refl

    and_true : (b : Bool) → (b && true) ≡ b
    and_true true = refl
    and_true false = refl

-- The counters after the instruction.
record Updated (rm csr num val : ℕ) (c d : Counters) : Type 0 where
  bits :
      (i : ℕ)
      → i < 64
      → bit i (stored csr d) ≡ csr_bit rm (bit i (stored csr c)) (bit i (operand rm num val))
  others : (other : ℕ) → (other == csr) ≡ false → stored other d ≡ stored other c

write_back-Updated :
    (rm csr num val new : ℕ) (c : Counters)
    → Writable csr
    → (num ≡ 0 → val ≡ 0)
    → ((i : ℕ)
        → i < 64
        → bit i new ≡ csr_bit rm (bit i (stored csr c)) (bit i (operand rm num val)))
    → (d : Counters) × (write_back ((rm % 4 == 1) || not (num == 0)) csr new c ≡ some d)
      × Updated rm csr num val c d
unfolding write_back
write_back-Updated rm csr num val new c w zero_reg bits =
    elim (Bool-cases ((rm % 4 == 1) || not (num == 0))) [
      | inl t ↦
          let s = emulate_write_csr-Set csr new c w in
          (
            s.0,
            rw (t, write_back) (s.1),
            record { bits = λ i l. ap (bit i) (s.2.new) ∙ bits i l; others = s.2.others },
          )
      | inr f ↦
          let z : num ≡ 0 = ground arith in
          let e : (rm % 4 == 1) ≡ false = ground arith in
          let v : val ≡ 0 = zero_reg z in
          let o : operand rm num val ≡ 0 = ground arith in
          (
            c,
            rw (f, write_back) refl,
            record {
              bits = λ i l. sym (rw (o, bit_zero i) (csr_bit_none rm (bit i (stored csr c)) e));
              others = λ _ _. refl;
            },
          )
    ]

emulate_system_opcode-value :
    (mepc mstatus insn old new : ℕ) (p : Platform) (d : Counters)
    → emulate_read_csr (csr_number insn) mstatus p.counters ≡ some old
    → new_csr_val (rounding_mode insn) old (source1 insn) (p.hart.regs (source1 insn))
      ≡ some (new, rounding_mode insn % 4 == 1)
    → write_back
        ((rounding_mode insn % 4 == 1) || not (source1 insn == 0))
        (csr_number insn)
        new
        p.counters
      ≡ some d
    → emulate_system_opcode mepc mstatus insn p ≡ set_rd insn old (record p { counters = d })
unfolding emulate_system_opcode
emulate_system_opcode-value mepc mstatus insn old new p d e1 e2 e3 =
    rw (e1, e2, e3, emulate_system_opcode) refl

pub record Done (insn : ℕ) (p q : Platform) : Type 0 where
  pub result : q.hart.regs ≡ update p.hart.regs (target insn) (stored (csr_number insn) p.counters)
  pub goes_on : q.hart.mepc ≡ u64 (p.hart.mepc + 4)
  pub bits :
      (i : ℕ)
      → i < 64
      → bit i (stored (csr_number insn) q.counters)
        ≡ csr_bit
            (rounding_mode insn)
            (bit i (stored (csr_number insn) p.counters))
            (bit i (operand (rounding_mode insn) (source1 insn) (p.hart.regs (source1 insn))))
  pub others :
      (other : ℕ)
      → (other == csr_number insn) ≡ false
      → stored other q.counters ≡ stored other p.counters

module _ (has_muldiv : Bool) (library : Library) (fp : FpEmulation) where
  -- A trapped instruction on one of the six control registers that can be written, which the mode
  -- that trapped may read, with 64-bit registers and x0 zero: the target register gets the value
  -- before, each bit of the control register is written, set or cleared by the operand as the
  -- instruction says, no other register of the counters is changed, and the program goes on behind
  -- the instruction.
  pub illegal_insn_trap-Done :
      (p : Platform)
      → trapped p % 128 ≡ 0x73
      → Writable (csr_number (trapped p))
      → Operation (rounding_mode (trapped p))
      → permitted (csr_number (trapped p)) p.hart.mstatus p.counters ≡ true
      → p.hart.regs 0 ≡ 0
      → ((i : ℕ) → p.hart.regs i < 2 ^ 64)
      → Done (trapped p) p (illegal_insn_trap has_muldiv library fp p)
  illegal_insn_trap-Done p opcode w op may zero_reg small =
      let insn = trapped p in
      let num = source1 insn in
      let old = stored (csr_number insn) p.counters in
      let rm = rounding_mode insn in
      let v = new_csr_val-bits rm old num (p.hart.regs num) op (omega arith) (small num) in
      let none_used : num ≡ 0 → p.hart.regs num ≡ 0 = λ z. rw z zero_reg in
      let u =
        write_back-Updated rm (csr_number insn) num (p.hart.regs num) (v.0) p.counters w none_used
          (v.2) in
      let behind : Platform = record p {
        hart = record (p.hart) { mepc = u64 (p.hart.mepc + 4) };
      } in
      let run =
        illegal_insn_trap-system has_muldiv library fp p opcode
        ∙ emulate_system_opcode-value p.hart.mepc p.hart.mstatus insn old (v.0) behind (u.0)
            (emulate_read_csr-permitted (csr_number insn) p.hart.mstatus p.counters w may) (v.1)
            (u.1) in
      subst (Done insn p) (sym run)
        (record { result = refl; goes_on = refl; bits = u.2.bits; others = u.2.others })
