-- ===== src/Machine/Emulation.antt =====
-- machine/emulation.c: the instructions that trap as illegal, on 64-bit registers, for a machine with
-- registers for floating point (`__riscv_flen`) and PK_ENABLE_FP_EMULATION. `Platform` has the hart,
-- its counters, and what `get_insn` reads in the program's memory. The functions of fp_emulation.c and
-- the compiler's routines for a division by 0 are parameters.
pub mod Bits
pub mod Csr
pub mod Refused
use boom_stop.Base.{
  ℕ, ◌+◌, ◌-◌, ◌*◌, ◌/◌, ◌%◌, ◌^◌, Bool, true, false, not, ◌&&◌, ◌||◌, Option, none, some, update,
  bit_and, bit_or, u64, u32, ◌==◌, if◌then◌else◌,
}
use boom_stop.Machine.Muldiv.{Regs, Library, source1, target, emulate_mul_div, emulate_mul_div32}
use boom_stop.Machine.Trap.{HartState, bit}
use boom_stop.Machine.Trap.Fault.{redirect_trap}

pub record Counters : Type 0 where
  pub mcycle : ℕ
  pub minstret : ℕ
  pub mtime : ℕ
  pub mhpmcounter3 : ℕ
  pub mhpmcounter4 : ℕ
  pub mhpmevent3 : ℕ
  pub mhpmevent4 : ℕ
  pub scounteren : ℕ

pub record Platform : Type 0 where
  pub hart : HartState
  pub counters : Counters
  pub insn_at : ℕ → ℕ

-- emulation_func; `regs` and `mcause` are those of the platform.
abbrev pub EmulationFunc : Type 0
EmulationFunc = (mepc mstatus insn : ℕ) → Platform → Platform

-- fp_emulation.c.
pub record FpEmulation : Type 0 where
  pub emulate_fmadd : EmulationFunc
  pub emulate_fp : EmulationFunc

unfoldable pub truly_illegal_insn : EmulationFunc
truly_illegal_insn mepc mstatus insn p = record p { hart = redirect_trap mepc mstatus insn p.hart }

-- With `__riscv_flen` no instruction of 16 bits is emulated.
unfoldable pub emulate_rvc : EmulationFunc
emulate_rvc = truly_illegal_insn

abbrev pub csr_cycle : ℕ
csr_cycle = 0xc00

abbrev pub csr_time : ℕ
csr_time = 0xc01

abbrev pub csr_instret : ℕ
csr_instret = 0xc02

abbrev pub csr_mhpmcounter3 : ℕ
csr_mhpmcounter3 = 0xb03

abbrev pub csr_mhpmcounter4 : ℕ
csr_mhpmcounter4 = 0xb04

abbrev pub csr_mhpmevent3 : ℕ
csr_mhpmevent3 = 0x323

abbrev pub csr_mhpmevent4 : ℕ
csr_mhpmevent4 = 0x324

-- EXTRACT_FIELD(mstatus, MSTATUS_MPP), the mode that trapped; PRV_U is 0.
abbrev pub previous_mode : ℕ → ℕ
previous_mode mstatus = mstatus / 2 ^ 11 % 4

abbrev pub counter_mask : (mstatus : ℕ) → Counters → ℕ
counter_mask mstatus c = if previous_mode mstatus == 0 then c.scounteren else 2 ^ 64 - 1

-- `none` stands for -1.
unfoldable pub emulate_read_csr : (num mstatus : ℕ) → Counters → Option ℕ
emulate_read_csr num mstatus c =
    let counteren = counter_mask mstatus c in
    if num == csr_cycle
    then (if bit 0 counteren then some c.mcycle else none)
    else if num == csr_time
    then (if bit 1 counteren then some c.mtime else none)
    else if num == csr_instret
    then (if bit 2 counteren then some c.minstret else none)
    else if num == csr_mhpmcounter3
    then (if bit 3 counteren then some c.mhpmcounter3 else none)
    else if num == csr_mhpmcounter4
    then (if bit 4 counteren then some c.mhpmcounter4 else none)
    else if num == csr_mhpmevent3
    then some c.mhpmevent3
    else if num == csr_mhpmevent4
    then some c.mhpmevent4
    else none

unfoldable pub emulate_write_csr : (num value : ℕ) → Counters → Option Counters
emulate_write_csr num value c =
    if num == csr_cycle
    then some (record c { mcycle = value })
    else if num == csr_instret
    then some (record c { minstret = value })
    else if num == csr_mhpmcounter3
    then some (record c { mhpmcounter3 = value })
    else if num == csr_mhpmcounter4
    then some (record c { mhpmcounter4 = value })
    else if num == csr_mhpmevent3
    then some (record c { mhpmevent3 = value })
    else if num == csr_mhpmevent4
    then some (record c { mhpmevent4 = value })
    else none

-- a & ~b.
abbrev pub and_not : ℕ → ℕ → ℕ
and_not a b = bit_and a (2 ^ 64 - 1 - b)

-- GET_RM.
abbrev pub rounding_mode : ℕ → ℕ
rounding_mode insn = insn / 2 ^ 12 % 8

abbrev pub csr_number : ℕ → ℕ
csr_number insn = u32 insn / 2 ^ 20

-- The switch on GET_RM: the new value and whether it is written whatever `rs1_num` is.
unfoldable pub new_csr_val : (rm csr_val rs1_num rs1_val : ℕ) → Option (ℕ × Bool)
new_csr_val rm csr_val rs1_num rs1_val =
    if rm == 1
    then some (rs1_val, true)
    else if rm == 2
    then some (bit_or csr_val rs1_val, false)
    else if rm == 3
    then some (and_not csr_val rs1_val, false)
    else if rm == 5
    then some (rs1_num, true)
    else if rm == 6
    then some (bit_or csr_val rs1_num, false)
    else if rm == 7
    then some (and_not csr_val rs1_num, false)
    else none

abbrev pub set_rd : (insn val : ℕ) → Platform → Platform
set_rd insn val p = record p {
  hart = record (p.hart) { regs = update p.hart.regs (target insn) val };
}

-- if (do_write && emulate_write_csr(...)) ...
unfoldable pub write_back : (do_write : Bool) (num value : ℕ) → Counters → Option Counters
write_back true num value c = emulate_write_csr num value c
write_back false num value c = some c

unfoldable pub emulate_system_opcode : EmulationFunc
emulate_system_opcode mepc mstatus insn p =
    let rs1_num = source1 insn in
    elim (emulate_read_csr (csr_number insn) mstatus p.counters) [
      | none ↦ truly_illegal_insn mepc mstatus insn p
      | some csr_val ↦
          elim (new_csr_val (rounding_mode insn) csr_val rs1_num (p.hart.regs rs1_num)) [
            | none ↦ truly_illegal_insn mepc mstatus insn p
            | some new ↦
                elim (write_back (new.1 || not (rs1_num == 0)) (csr_number insn) (new.0)
                  p.counters) [
                    | none ↦ truly_illegal_insn mepc mstatus insn p
                    | some c ↦ set_rd insn csr_val (record p { counters = c })
                  ]
          ]
    ]

-- What a function of muldiv_emulation.c does, from the registers it gives.
abbrev pub emulated : (insn : ℕ) (result : Option Regs) → EmulationFunc
emulated insn none mepc mstatus _ p = truly_illegal_insn mepc mstatus insn p
emulated insn (some regs) mepc mstatus _ p = record p { hart = record (p.hart) { regs = regs } }

module _ (has_muldiv : Bool) (library : Library) (fp : FpEmulation) where
  -- The entry for the opcode, bits 2 to 6 of the instruction.
  unfoldable pub illegal_insn_trap_table : (entry : ℕ) → EmulationFunc
  illegal_insn_trap_table entry mepc mstatus insn p =
      if entry == 12 && not has_muldiv
      then emulated insn (emulate_mul_div library insn p.hart.regs) mepc mstatus insn p
      else if entry == 14 && not has_muldiv
      then emulated insn (emulate_mul_div32 library insn p.hart.regs) mepc mstatus insn p
      else if entry == 16 || entry == 17 || entry == 18 || entry == 19
      then fp.emulate_fmadd mepc mstatus insn p
      else if entry == 20
      then fp.emulate_fp mepc mstatus insn p
      else if entry == 28
      then emulate_system_opcode mepc mstatus insn p
      else truly_illegal_insn mepc mstatus insn p

  unfoldable pub illegal_insn_trap : Platform → Platform
  illegal_insn_trap p =
      let mepc = p.hart.mepc in
      let mstatus = p.hart.mstatus in
      let bad = p.hart.mbadaddr in
      let insn = if bad == 0 then p.insn_at mepc else bad in
      if insn % 4 == 3
      then illegal_insn_trap_table (insn / 4 % 32) mepc mstatus insn
          (record p { hart = record (p.hart) { mepc = u64 (mepc + 4) } })
      else emulate_rvc mepc mstatus insn p
