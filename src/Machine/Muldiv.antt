-- ===== src/Machine/Muldiv.antt =====
-- machine/muldiv_emulation.c, on 64-bit registers by number. What the compiler's routines give for a
-- divisor of 0 is not part of the repository and a parameter. `none` stands for the call of
-- `truly_illegal_insn`.
pub mod High
pub mod Divide
use boom_stop.Base.{
  ℕ, ◌+◌, ◌-◌, ◌*◌, ◌/◌, ◌%◌, ◌^◌, Bool, not, Option, none, some, update, bit_and, u64, u32, to_int,
  is_neg, ltb, ◌==◌, if◌then◌else◌,
}

abbrev pub Regs : Type 0
Regs = ℕ → ℕ

-- What a division by 0 gives, from the dividend, in each of the four operations.
pub record Library : Type 0 where
  pub div_zero : ℕ → ℕ
  pub divu_zero : ℕ → ℕ
  pub rem_zero : ℕ → ℕ
  pub remu_zero : ℕ → ℕ

-- (double_int)(intptr_t)x, on 128 bits.
abbrev pub sext : ℕ → ℕ
sext x = if is_neg x then x + (2 ^ 128 - 2 ^ 64) else x

abbrev pub high_word : ℕ → ℕ
high_word x = x % 2 ^ 128 / 2 ^ 64

unfoldable pub mulh : ℕ → ℕ → ℕ
mulh a b = high_word (sext a * sext b)

unfoldable pub mulhu : ℕ → ℕ → ℕ
mulhu a b = high_word (a * b)

unfoldable pub mulhsu : ℕ → ℕ → ℕ
mulhsu a b = high_word (sext a * b)

-- The size of a word as a signed number, and the word with a sign and a size.
abbrev pub size_of : ℕ → ℕ
size_of x = if is_neg x then 2 ^ 64 - x else x

abbrev pub with_sign : Bool → ℕ → ℕ
with_sign negative n = if negative then u64 (2 ^ 64 - n) else u64 n

-- Signed `/` and `%` of C, which round to zero.
unfoldable pub sdiv : ℕ → ℕ → ℕ
sdiv a b = with_sign (if is_neg a then not (is_neg b) else is_neg b) (size_of a / size_of b)

unfoldable pub srem : ℕ → ℕ → ℕ
srem a b = with_sign (is_neg a) (size_of a % size_of b)

abbrev pub source1 : ℕ → ℕ
source1 insn = insn / 2 ^ 15 % 32

abbrev pub source2 : ℕ → ℕ
source2 insn = insn / 2 ^ 20 % 32

abbrev pub target : ℕ → ℕ
target insn = insn / 2 ^ 7 % 32

-- The masks of all these instructions are the same.
abbrev pub matches : ℕ → ℕ → Bool
matches insn match = bit_and insn 0xfe00707f == match

module _ (library : Library) where
  open library use {div_zero, divu_zero, rem_zero, remu_zero}

  unfoldable pub mul_div_value : (insn a b : ℕ) → Option ℕ
  mul_div_value insn a b =
      if matches insn 0x2000033
      then some (u64 (a * b))
      else if matches insn 0x2004033
      then some (if b == 0 then div_zero a else sdiv a b)
      else if matches insn 0x2005033
      then some (if b == 0 then divu_zero a else a / b)
      else if matches insn 0x2006033
      then some (if b == 0 then rem_zero a else srem a b)
      else if matches insn 0x2007033
      then some (if b == 0 then remu_zero a else a % b)
      else if matches insn 0x2001033
      then some (mulh a b)
      else if matches insn 0x2003033
      then some (mulhu a b)
      else if matches insn 0x2002033
      then some (mulhsu a b)
      else none

  unfoldable pub emulate_mul_div : (insn : ℕ) → Regs → Option Regs
  emulate_mul_div insn regs =
      elim (mul_div_value insn (regs (source1 insn)) (regs (source2 insn))) [
        | none ↦ none
        | some val ↦ some (update regs (target insn) val)
      ]

  -- On 32-bit words, whose results are sign-extended. A word is made 64 bits wide for a division, by 0
  -- too.
  unfoldable pub mul_div32_value : (insn a b : ℕ) → Option ℕ
  mul_div32_value insn a b =
      if matches insn 0x200003b
      then some (to_int (a * b))
      else if matches insn 0x200403b
      then some (to_int (if b == 0 then div_zero (to_int a) else sdiv (to_int a) (to_int b)))
      else if matches insn 0x200503b
      then some (to_int (if b == 0 then divu_zero a else a / b))
      else if matches insn 0x200603b
      then some (to_int (if b == 0 then rem_zero (to_int a) else srem (to_int a) (to_int b)))
      else if matches insn 0x200703b
      then some (to_int (if b == 0 then remu_zero a else a % b))
      else none

  unfoldable pub emulate_mul_div32 : (insn : ℕ) → Regs → Option Regs
  emulate_mul_div32 insn regs =
      elim (mul_div32_value insn (u32 (regs (source1 insn))) (u32 (regs (source2 insn)))) [
        | none ↦ none
        | some val ↦ some (update regs (target insn) val)
      ]
