-- ===== src/Base/Bits.antt =====
-- The native operations on binary digits, one digit at a time: the library defines them with a count
-- of digits to go, and a longer count changes nothing.
use native.Mathlib.Nat.{pow-suc, one-le-pow}
use Prim.Native.Nat.{
  ℕ, zero, suc, ◌+◌, ◌-◌, ◌*◌, ◌/◌, ◌%◌, ◌≤◌, ◌<◌, ◌^◌, min, max, bit_and, bit_or, digits, bitwise,
  bit_and-bitwise, bit_or-bitwise,
}
use mathlib.Core.Path.{◌≡◌, refl, ◌∙◌}
use native.Mathlib.Omega.{arith}

module _ (z : ℕ → ℕ) (f : ℕ → ℕ → ℕ) where
  one_more : (n a b : ℕ) → a ≤ n → digits z f (suc n) a b ≡ digits z f n a b
  one_more zero zero b le = refl
  one_more zero (suc a) b le = absurd (omega arith)
  one_more (suc n) zero b le = refl
  one_more (suc n) (suc a) b le = omega (arith, one_more n (suc a / 2) (b / 2) (omega arith))

  longer :
      (more n count a b : ℕ) → count ≡ more + n → a ≤ n → digits z f count a b ≡ digits z f n a b
  longer zero n count a b e le = let q : count ≡ n = omega arith in rw q refl
  longer (suc more) n zero a b e le = absurd (omega arith)
  longer (suc more) n (suc count) a b e le =
      one_more count a b (omega arith) ∙ longer more n count a b (omega arith) le

  low_digit :
      (a b : ℕ)
      → bitwise z f (suc a) b ≡ bitwise z f (suc a / 2) (b / 2) * 2 + f (suc a % 2) (b % 2)
  low_digit a b =
      let half : ℕ = suc a / 2 in
      omega (arith, longer (a - half) half a half (b / 2) (omega arith) (omega arith))

pub bit_or-digit : (a b : ℕ) → bit_or a b ≡ bit_or (a / 2) (b / 2) * 2 + max (a % 2) (b % 2)
bit_or-digit zero b = simp bit_or-bitwise (omega arith)
bit_or-digit (suc a) b = simp bit_or-bitwise (low_digit (λ b. b) max a b)

pub bit_and-digit : (a b : ℕ) → bit_and a b ≡ bit_and (a / 2) (b / 2) * 2 + min (a % 2) (b % 2)
bit_and-digit zero b = simp bit_and-bitwise (omega arith)
bit_and-digit (suc a) b = simp bit_and-bitwise (low_digit (λ _. 0) min a b)

-- The three low digits.
pub bit_and-seven : (a : ℕ) → bit_and a 7 ≡ 0 → a % 8 ≡ 0
bit_and-seven a e =
    omega (arith, bit_and-digit a 7, bit_and-digit (a / 2) 3, bit_and-digit (a / 2 / 2) 1)

pub bit_or-eighth : (a b : ℕ) → bit_or a b % 8 ≡ 0 → b % 8 ≡ 0
bit_or-eighth a b e =
    omega
      (arith, bit_or-digit a b, bit_or-digit (a / 2) (b / 2), bit_or-digit (a / 2 / 2) (b / 2 / 2))

pub bit_and-ones : (n a : ℕ) → a < 2 ^ n → bit_and a (2 ^ n - 1) ≡ a
bit_and-ones zero a h = let q : a ≡ 0 = omega arith in rw q refl
bit_and-ones (suc n) a h =
    let double : 2 ^ suc n ≡ 2 * 2 ^ n = omega (arith, pow-suc 2 n) in
    let pos : 1 ≤ 2 ^ n = one-le-pow n 2 (omega arith) in
    let half : (2 ^ suc n - 1) / 2 ≡ 2 ^ n - 1 = omega (arith, double, pos) in
    let low : (2 ^ suc n - 1) % 2 ≡ 1 = omega (arith, double, pos) in
    let ih = bit_and-ones n (a / 2) (omega (arith, double)) in
    let digit = bit_and-digit a (2 ^ suc n - 1) in digit ∙ rw (half, low, ih) (omega arith)

-- All digits but the low four.
pub bit_and-high : (a : ℕ) → a < 2 ^ 64 → bit_and a (2 ^ 64 - 16) ≡ a / 16 * 16
bit_and-high a h = omega (
  arith,
  bit_and-digit a 0xffff_ffff_ffff_fff0,
  bit_and-digit (a / 2) 0x7fff_ffff_ffff_fff8,
  bit_and-digit (a / 2 / 2) 0x3fff_ffff_ffff_fffc,
  bit_and-digit (a / 2 / 2 / 2) 0x1fff_ffff_ffff_fffe,
  bit_and-ones 60 (a / 2 / 2 / 2 / 2) (omega arith),
)

bit_or_zero_upto : (n a : ℕ) → a ≤ n → bit_or a 0 ≡ a
bit_or_zero_upto zero a le = let q : a ≡ 0 = omega arith in rw q refl
bit_or_zero_upto (suc n) zero le = refl
bit_or_zero_upto (suc n) (suc a) le =
    omega (arith, bit_or-digit (suc a) 0, bit_or_zero_upto n (suc a / 2) (omega arith))

pub bit_or-zero : (a : ℕ) → bit_or a 0 ≡ a
bit_or-zero a = bit_or_zero_upto a a (omega arith)

-- The lowest digit is set.
pub bit_or-one : (a : ℕ) → bit_or a 1 ≡ a / 2 * 2 + 1
bit_or-one a = omega (arith, bit_or-digit a 1, bit_or-zero (a / 2))
