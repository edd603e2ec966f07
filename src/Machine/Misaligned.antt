-- ===== src/Machine/Misaligned.antt =====
-- machine/misaligned_ldst.c, on 64-bit registers by number, for a machine with compressed
-- instructions and registers for floating point (PK_ENABLE_FP_EMULATION). The instruction that
-- trapped is an argument; a fault of an access on its way is not modelled. What the machine keeps
-- for a single-precision number is a parameter. `none` stands for the call of `truly_illegal_insn`.
pub mod Signs
pub mod Round
use boom_stop.Base.{
  ℕ, zero, suc, ◌+◌, ◌-◌, ◌*◌, ◌/◌, ◌%◌, ◌^◌, Bool, true, false, not, ◌&&◌, Option, none, some,
  update, bit_and, u64, u32, ltb, ◌==◌, if◌then◌else◌,
}
use boom_stop.Machine.Muldiv.{Regs, target, source2}

pub record Hart : Type 0 where
  pub regs : Regs
  pub fregs : Regs
  pub byte : ℕ → ℕ
  pub mepc : ℕ

-- What is read or written: `len` bytes, with the sign extended or not, for a register of one of the
-- two kinds.
pub record Access : Type 0 where
  pub len : ℕ
  pub signed : Bool
  pub fp : Bool
  pub reg : ℕ

-- (insn & mask) == match, for the instructions of 32 and those of 16 bits.
abbrev pub is_insn : (insn match : ℕ) → Bool
is_insn insn match = bit_and insn 0x707f == match

abbrev pub is_rvc : (insn match : ℕ) → Bool
is_rvc insn match = bit_and insn 0xe003 == match

abbrev pub insn_len : ℕ → ℕ
insn_len insn = if ltb (insn % 4) 3 then 2 else 4

-- RVC_RS2S, and the field at SH_RS2C.
abbrev pub short_source : ℕ → ℕ
short_source insn = 8 + insn / 2 ^ 2 % 8

abbrev pub stack_source : ℕ → ℕ
stack_source insn = insn / 2 ^ 2 % 32

abbrev pub access : (len : ℕ) (signed fp : Bool) (reg : ℕ) → Option Access
access len signed fp reg = some (record { len = len; signed = signed; fp = fp; reg = reg })

unfoldable pub decode_load : (insn : ℕ) → Option Access
decode_load insn =
    if is_insn insn 0x2003
    then access 4 true false (target insn)
    else if is_insn insn 0x3003
    then access 8 true false (target insn)
    else if is_insn insn 0x6003
    then access 4 false false (target insn)
    else if is_insn insn 0x3007
    then access 8 false true (target insn)
    else if is_insn insn 0x2007
    then access 4 false true (target insn)
    else if is_insn insn 0x1003
    then access 2 true false (target insn)
    else if is_insn insn 0x5003
    then access 2 false false (target insn)
    else if is_rvc insn 0x6000
    then access 8 true false (short_source insn)
    else if is_rvc insn 0x6002 && not (target insn == 0)
    then access 8 true false (target insn)
    else if is_rvc insn 0x4000
    then access 4 true false (short_source insn)
    else if is_rvc insn 0x4002 && not (target insn == 0)
    then access 4 true false (target insn)
    else if is_rvc insn 0x2000
    then access 8 false true (short_source insn)
    else if is_rvc insn 0x2002
    then access 8 false true (target insn)
    else none

unfoldable pub decode_store : (insn : ℕ) → Option Access
decode_store insn =
    if is_insn insn 0x2023
    then access 4 false false (source2 insn)
    else if is_insn insn 0x3023
    then access 8 false false (source2 insn)
    else if is_insn insn 0x3027
    then access 8 false true (source2 insn)
    else if is_insn insn 0x2027
    then access 4 false true (source2 insn)
    else if is_insn insn 0x1023
    then access 2 false false (source2 insn)
    else if is_rvc insn 0xe000
    then access 8 false false (short_source insn)
    else if is_rvc insn 0xe002 && not (target insn == 0)
    then access 8 false false (stack_source insn)
    else if is_rvc insn 0xc000
    then access 4 false false (short_source insn)
    else if is_rvc insn 0xc002 && not (target insn == 0)
    then access 4 false false (stack_source insn)
    else if is_rvc insn 0xa000
    then access 8 false true (short_source insn)
    else if is_rvc insn 0xa002
    then access 8 false true (stack_source insn)
    else none

-- The loops over the bytes, from the lowest on.
unfoldable pub load_bytes : (ℕ → ℕ) → (len addr : ℕ) → ℕ
load_bytes byte zero addr = 0
load_bytes byte (suc len) addr = byte addr + 2 ^ 8 * load_bytes byte len (u64 (addr + 1))

unfoldable pub store_bytes : (len addr val : ℕ) → (ℕ → ℕ) → ℕ → ℕ
store_bytes zero addr val byte = byte
store_bytes (suc len) addr val byte =
    store_bytes len (u64 (addr + 1)) (val / 2 ^ 8) (update byte addr (val % 2 ^ 8))

-- (intptr_t)val << shift >> shift, where `shift` leaves `len` bytes.
abbrev pub extend : (len val : ℕ) → ℕ
extend len val = if ltb val (2 ^ (8 * len - 1)) then val else val + (2 ^ 64 - 2 ^ (8 * len))

module _ (single : ℕ → ℕ) where
  -- The registers with the value that is loaded.
  abbrev pub set_loaded : Access → (val : ℕ) → Hart → Hart
  set_loaded a val h =
      if not a.fp
      then record h { regs = update h.regs a.reg (if a.signed then extend a.len val else val) }
      else if a.len == 8
      then record h { fregs = update h.fregs a.reg val }
      else record h { fregs = update h.fregs a.reg (single val) }

  unfoldable pub misaligned_load_trap : (insn addr : ℕ) → Hart → Option Hart
  misaligned_load_trap insn addr h = elim (decode_load insn) [
    | none ↦ none
    | some a ↦ some (record (set_loaded a (load_bytes h.byte a.len addr) h) {
      mepc = u64 (h.mepc + insn_len insn);
    })
  ]

-- The value that a store writes the low bytes of.
abbrev pub stored_value : Access → Hart → ℕ
stored_value a h = if a.fp then h.fregs a.reg else h.regs a.reg

unfoldable pub misaligned_store_trap : (insn addr : ℕ) → Hart → Option Hart
misaligned_store_trap insn addr h = elim (decode_store insn) [
  | none ↦ none
  | some a ↦ some (record h {
    byte = store_bytes a.len addr (stored_value a h) h.byte;
    mepc = u64 (h.mepc + insn_len insn);
  })
]
