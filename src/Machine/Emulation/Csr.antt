-- ===== src/Machine/Emulation/Csr.antt =====
-- The reads and writes of control registers that machine/emulation.c emulates.
pub mod Done
use boom_stop.Base.{
  ℕ, zero, suc, ◌+◌, ◌-◌, ◌*◌, ◌/◌, ◌%◌, ◌^◌, ◌<◌, ◌≡◌, refl, ◌∙◌, sym, subst, Bool, true, false,
  ◌&&◌, ◌||◌, not, Option, none, some, ◌==◌, if◌then◌else◌, arith, u64, inl, inr, Bool-cases,
  update, bit_or, ap,
}
use boom_stop.Machine.Muldiv.{Regs, Library, source1, target}
use boom_stop.Machine.Trap.{HartState, bit}
use boom_stop.Machine.Trap.Redirect.{bit-bit_or}
use boom_stop.Machine.Emulation.{
  Platform, Counters, FpEmulation, illegal_insn_trap, emulate_system_opcode, emulate_read_csr,
  emulate_write_csr, write_back, new_csr_val, csr_number, rounding_mode, previous_mode,
  counter_mask, and_not, csr_cycle, csr_time, csr_instret, csr_mhpmcounter3, csr_mhpmcounter4,
  csr_mhpmevent3, csr_mhpmevent4,
}
use boom_stop.Machine.Emulation.Bits.{bit-and_not}
use boom_stop.Machine.Emulation.Refused.{counter_index, trapped, illegal_insn_trap-system}

abbrev pub csr_scounteren : ℕ
csr_scounteren = 0x106

-- What a control register holds.
abbrev pub stored : (csr : ℕ) → Counters → ℕ
stored csr c =
    if csr == csr_cycle
    then c.mcycle
    else if csr == csr_instret
    then c.minstret
    else if csr == csr_mhpmcounter3
    then c.mhpmcounter3
    else if csr == csr_mhpmcounter4
    then c.mhpmcounter4
    else if csr == csr_mhpmevent3
    then c.mhpmevent3
    else if csr == csr_mhpmevent4
    then c.mhpmevent4
    else if csr == csr_time
    then c.mtime
    else if csr == csr_scounteren
    then c.scounteren
    else 0

-- The registers that can be read and written.
pub data Writable : ℕ → Type 0 where
  cycle : Writable csr_cycle
  instret : Writable csr_instret
  counter3 : Writable csr_mhpmcounter3
  counter4 : Writable csr_mhpmcounter4
  event3 : Writable csr_mhpmevent3
  event4 : Writable csr_mhpmevent4

-- The mode that trapped may read the register.
abbrev pub permitted : (csr mstatus : ℕ) → Counters → Bool
permitted csr mstatus c =
    not (previous_mode mstatus == 0)
    || elim (counter_index csr) [ none ↦ true | some i ↦ bit i c.scounteren ]

pub emulate_read_csr-permitted :
    (csr mstatus : ℕ) (c : Counters)
    → Writable csr
    → permitted csr mstatus c ≡ true
    → emulate_read_csr csr mstatus c ≡ some (stored csr c)
unfolding emulate_read_csr
emulate_read_csr-permitted csr mstatus c cycle ok = ground arith
emulate_read_csr-permitted csr mstatus c instret ok = ground arith
emulate_read_csr-permitted csr mstatus c counter3 ok = ground arith
emulate_read_csr-permitted csr mstatus c counter4 ok = ground arith
emulate_read_csr-permitted csr mstatus c event3 ok = refl
emulate_read_csr-permitted csr mstatus c event4 ok = refl

-- The counters `d` are `c` with a new value of one register.
pub record Set (csr value : ℕ) (c d : Counters) : Type 0 where
  pub new : stored csr d ≡ value
  pub others : (other : ℕ) → (other == csr) ≡ false → stored other d ≡ stored other c

pub emulate_write_csr-Set :
    (csr value : ℕ) (c : Counters)
    → Writable csr
    → (d : Counters) × (emulate_write_csr csr value c ≡ some d) × Set csr value c d
unfolding emulate_write_csr
emulate_write_csr-Set csr value c cycle =
    (record c { mcycle = value }, refl, record { new = refl; others = λ i n. rw n refl })
emulate_write_csr-Set csr value c instret =
    (record c { minstret = value }, refl, record { new = refl; others = λ i n. rw n refl })
emulate_write_csr-Set csr value c counter3 =
    (record c { mhpmcounter3 = value }, refl, record { new = refl; others = λ i n. rw n refl })
emulate_write_csr-Set csr value c counter4 =
    (record c { mhpmcounter4 = value }, refl, record { new = refl; others = λ i n. rw n refl })
emulate_write_csr-Set csr value c event3 =
    (record c { mhpmevent3 = value }, refl, record { new = refl; others = λ i n. rw n refl })
emulate_write_csr-Set csr value c event4 =
    (record c { mhpmevent4 = value }, refl, record { new = refl; others = λ i n. rw n refl })

-- The operations: write, set and clear, with a register or a small number as the operand.
pub data Operation : ℕ → Type 0 where
  csrrw : Operation 1
  csrrs : Operation 2
  csrrc : Operation 3
  csrrwi : Operation 5
  csrrsi : Operation 6
  csrrci : Operation 7

abbrev pub operand : (rm rs1_num rs1_val : ℕ) → ℕ
operand rm rs1_num rs1_val = if rm / 4 == 0 then rs1_val else rs1_num

-- What becomes of a bit.
abbrev pub csr_bit : (rm : ℕ) → (old by : Bool) → Bool
csr_bit rm old by = if rm % 4 == 1 then by else if rm % 4 == 2 then old || by else old && not by

pub new_csr_val-bits :
    (rm old num val : ℕ)
    → Operation rm
    → num < 2 ^ 64
    → val < 2 ^ 64
    → (new : ℕ) × (new_csr_val rm old num val ≡ some (new, rm % 4 == 1))
      × ((i : ℕ) → i < 64 → bit i new ≡ csr_bit rm (bit i old) (bit i (operand rm num val)))
unfolding new_csr_val
new_csr_val-bits rm old num val csrrw small low = (val, refl, λ i l. refl)
new_csr_val-bits rm old num val csrrs small low =
    (bit_or old val, refl, λ i l. bit-bit_or i old val)
new_csr_val-bits rm old num val csrrc small low =
    (and_not old val, refl, λ i l. bit-and_not i old val l low)
new_csr_val-bits rm old num val csrrwi small low = (num, refl, λ i l. refl)
new_csr_val-bits rm old num val csrrsi small low =
    (bit_or old num, refl, λ i l. bit-bit_or i old num)
new_csr_val-bits rm old num val csrrci small low =
    (and_not old num, refl, λ i l. bit-and_not i old num l small)
