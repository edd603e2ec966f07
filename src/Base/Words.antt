-- ===== src/Base/Words.antt =====
-- Machine words. A register, a `long` or a pointer is a number below 2 ^ 64, its bit pattern. An
-- `int` in a register is kept sign-extended to 64 bits, as the RISC-V calling convention keeps it.
use Prim.Native.Nat.{ℕ, ◌+◌, ◌-◌, ◌%◌, ◌^◌, ◌<◌}
use mathlib.Core.Path.{◌≡◌}
use mathlib.Core.Bool.{Bool}
use native.Mathlib.Omega.{arith}
use boom_stop.Base.Tests.{ltb, leb, if◌then◌else◌}

abbrev pub u64 : ℕ → ℕ
u64 n = n % 2 ^ 64

abbrev pub u32 : ℕ → ℕ
u32 n = n % 2 ^ 32

-- The sign-extended `int` in the low half of a word.
abbrev pub to_int : ℕ → ℕ
to_int w = if ltb (w % 2 ^ 32) (2 ^ 31) then w % 2 ^ 32 else w % 2 ^ 32 + (2 ^ 64 - 2 ^ 32)

-- The word that stands for a negative number, and the test of the sign.
abbrev pub neg : ℕ → ℕ
neg n = 2 ^ 64 - n

abbrev pub is_neg : ℕ → Bool
is_neg w = leb (2 ^ 63) w

-- a - b on words.
abbrev pub sub64 : ℕ → ℕ → ℕ
sub64 a b = (a + 2 ^ 64 - b) % 2 ^ 64

pub to_int-lt : (w : ℕ) → to_int w < 2 ^ 64
to_int-lt w = ground arith

pub to_int-to_int : (w : ℕ) → to_int (to_int w) ≡ to_int w
to_int-to_int w = ground arith
