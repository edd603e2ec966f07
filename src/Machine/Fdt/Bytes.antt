-- ===== src/Machine/Fdt/Bytes.antt =====
-- `&` and `|` of words, a byte at a time, for the swap of bytes in machine/fdt.c.
use boom_stop.Base.{
  ℕ, ◌+◌, ◌*◌, ◌/◌, ◌%◌, ◌<◌, ◌≤◌, zero, suc, ◌≡◌, refl, bit_and, bit_or, bit_and-digit,
  bit_or-digit, arith,
}

sixteenth : (a : ℕ) → a / 2 / 2 / 2 / 2 ≡ a / 16
sixteenth a = omega arith

-- Four digits at once, of a mask that ends in ones and of one that ends in zeros.
and_ones : (a b : ℕ) → bit_and a (b * 16 + 15) ≡ bit_and (a / 16) b * 16 + a % 16
and_ones a b =
    let p : (b * 16 + 15) / 2 / 2 / 2 / 2 ≡ b = omega arith in
    let step : bit_and (a / 2 / 2 / 2 / 2) ((b * 16 + 15) / 2 / 2 / 2 / 2) ≡ bit_and (a / 16) b =
      rw (p, sixteenth a) refl in
    omega (
      arith,
      step,
      bit_and-digit a (b * 16 + 15),
      bit_and-digit (a / 2) ((b * 16 + 15) / 2),
      bit_and-digit (a / 2 / 2) ((b * 16 + 15) / 2 / 2),
      bit_and-digit (a / 2 / 2 / 2) ((b * 16 + 15) / 2 / 2 / 2),
    )

and_zeros : (a b : ℕ) → bit_and a (b * 16) ≡ bit_and (a / 16) b * 16
and_zeros a b =
    let p : (b * 16) / 2 / 2 / 2 / 2 ≡ b = omega arith in
    let step : bit_and (a / 2 / 2 / 2 / 2) ((b * 16) / 2 / 2 / 2 / 2) ≡ bit_and (a / 16) b =
      rw (p, sixteenth a) refl in
    omega (
      arith,
      step,
      bit_and-digit a (b * 16),
      bit_and-digit (a / 2) ((b * 16) / 2),
      bit_and-digit (a / 2 / 2) ((b * 16) / 2 / 2),
      bit_and-digit (a / 2 / 2 / 2) ((b * 16) / 2 / 2 / 2),
    )

-- The same of `|` where one side ends in zeros.
or_left : (a b c : ℕ) → c < 16 → bit_or (a * 16 + c) (b * 16) ≡ bit_or a b * 16 + c
or_left a b c small =
    let p : (a * 16 + c) / 2 / 2 / 2 / 2 ≡ a = omega arith in
    let q : (b * 16) / 2 / 2 / 2 / 2 ≡ b = omega arith in
    let step : bit_or ((a * 16 + c) / 2 / 2 / 2 / 2) ((b * 16) / 2 / 2 / 2 / 2) ≡ bit_or a b =
      rw (p, q) refl in
    omega (
      arith,
      step,
      bit_or-digit (a * 16 + c) (b * 16),
      bit_or-digit ((a * 16 + c) / 2) ((b * 16) / 2),
      bit_or-digit ((a * 16 + c) / 2 / 2) ((b * 16) / 2 / 2),
      bit_or-digit ((a * 16 + c) / 2 / 2 / 2) ((b * 16) / 2 / 2 / 2),
    )

or_right : (a b c : ℕ) → c < 16 → bit_or (a * 16) (b * 16 + c) ≡ bit_or a b * 16 + c
or_right a b c small =
    let p : (b * 16 + c) / 2 / 2 / 2 / 2 ≡ b = omega arith in
    let q : (a * 16) / 2 / 2 / 2 / 2 ≡ a = omega arith in
    let step : bit_or ((a * 16) / 2 / 2 / 2 / 2) ((b * 16 + c) / 2 / 2 / 2 / 2) ≡ bit_or a b =
      rw (p, q) refl in
    omega (
      arith,
      step,
      bit_or-digit (a * 16) (b * 16 + c),
      bit_or-digit ((a * 16) / 2) ((b * 16 + c) / 2),
      bit_or-digit ((a * 16) / 2 / 2) ((b * 16 + c) / 2 / 2),
      bit_or-digit ((a * 16) / 2 / 2 / 2) ((b * 16 + c) / 2 / 2 / 2),
    )

and_zero_upto : (n a : ℕ) → a ≤ n → bit_and a 0 ≡ 0
and_zero_upto zero a le = let q : a ≡ 0 = omega arith in rw q refl
and_zero_upto (suc n) a le = omega (arith, bit_and-digit a 0, and_zero_upto n (a / 2) (omega arith))

pub and_zero : (a : ℕ) → bit_and a 0 ≡ 0
and_zero a = and_zero_upto a a (omega arith)

pub and_byte_ones : (a b : ℕ) → bit_and a (b * 256 + 255) ≡ bit_and (a / 256) b * 256 + a % 256
and_byte_ones a b =
    let p : b * 256 + 255 ≡ (b * 16 + 15) * 16 + 15 = omega arith in
    let q : a / 16 / 16 ≡ a / 256 = omega arith in
    rw (p, and_ones a (b * 16 + 15), and_ones (a / 16) b, q) (omega arith)

pub and_byte_zeros : (a b : ℕ) → bit_and a (b * 256) ≡ bit_and (a / 256) b * 256
and_byte_zeros a b =
    let p : b * 256 ≡ b * 16 * 16 = omega arith in
    let q : a / 16 / 16 ≡ a / 256 = omega arith in
    rw (p, and_zeros a (b * 16), and_zeros (a / 16) b, q) (omega arith)

pub or_byte_left : (a b c : ℕ) → c < 256 → bit_or (a * 256 + c) (b * 256) ≡ bit_or a b * 256 + c
or_byte_left a b c small =
    let p : a * 256 + c ≡ (a * 16 + c / 16) * 16 + c % 16 = omega arith in
    let q : b * 256 ≡ b * 16 * 16 = omega arith in
    rw
      (
        p,
        q,
        or_left (a * 16 + c / 16) (b * 16) (c % 16) (omega arith),
        or_left a b (c / 16) (omega arith),
      )
      (omega arith)

pub or_byte_right : (a b c : ℕ) → c < 256 → bit_or (a * 256) (b * 256 + c) ≡ bit_or a b * 256 + c
or_byte_right a b c small =
    let p : b * 256 + c ≡ (b * 16 + c / 16) * 16 + c % 16 = omega arith in
    let q : a * 256 ≡ a * 16 * 16 = omega arith in
    rw
      (
        p,
        q,
        or_right (a * 16) (b * 16 + c / 16) (c % 16) (omega arith),
        or_right a b (c / 16) (omega arith),
      )
      (omega arith)
