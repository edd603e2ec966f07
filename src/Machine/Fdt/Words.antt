-- ===== src/Machine/Fdt/Words.antt =====
-- `bswap` in machine/fdt.c: the words of the device tree, whose first byte is the highest.
use boom_stop.Base.{ℕ, ◌+◌, ◌*◌, ◌/◌, ◌%◌, ◌^◌, ◌<◌, ◌≡◌, bit_and, bit_or, u32, arith, bit_or-zero}
use boom_stop.Util.{Mem}
use boom_stop.Machine.Fdt.{bswap, load32, store32, token}
use boom_stop.Machine.Fdt.Bytes.{
  and_zero, and_byte_ones, and_byte_zeros, or_byte_left, or_byte_right,
}

-- The bytes of a word, with the highest first.
abbrev pub reversed : ℕ → ℕ
reversed x =
    x % 2 ^ 8 * 2 ^ 24
    + x / 2 ^ 8 % 2 ^ 8 * 2 ^ 16
    + x / 2 ^ 16 % 2 ^ 8 * 2 ^ 8
    + x / 2 ^ 24 % 2 ^ 8

mask_low : (x : ℕ) → bit_and x 0x00ff_00ff ≡ x / 65536 % 256 * 65536 + x % 256
mask_low x = omega (
  arith,
  and_byte_ones x 0xff00,
  and_byte_zeros (x / 256) 0xff,
  and_byte_ones (x / 256 / 256) 0,
  and_zero (x / 256 / 256 / 256),
)

mask_high : (x : ℕ) → bit_and x 0xff00_ff00 ≡ (x / 256 / 65536 % 256 * 65536 + x / 256 % 256) * 256
mask_high x = omega (arith, and_byte_zeros x 0xff_00ff, mask_low (x / 256))

half_low : (x : ℕ) → bit_and x 0x0000_ffff ≡ x % 65536
half_low x =
    omega (arith, and_byte_ones x 0xff, and_byte_ones (x / 256) 0, and_zero (x / 256 / 256))

half_high : (x : ℕ) → bit_and x 0xffff_0000 ≡ x / 65536 % 65536 * 65536
half_high x =
    omega
      (arith, and_byte_zeros x 0xff_ff00, and_byte_zeros (x / 256) 0xffff, half_low (x / 256 / 256))

or_byte : (a c : ℕ) → c < 256 → bit_or (a * 256) c ≡ a * 256 + c
or_byte a c small =
    let z : 0 * 256 + c ≡ c = omega arith in
    rw z at (rw (bit_or-zero a) at (or_byte_right a 0 c small))

-- The first line of `bswap` swaps the bytes of each half.
swap_bytes :
    (a b c d : ℕ)
    → a < 256
    → b < 256
    → c < 256
    → d < 256
    → bit_or ((c * 65536 + a) * 256) (d * 65536 + b) ≡ c * 2 ^ 24 + d * 2 ^ 16 + a * 2 ^ 8 + b
swap_bytes a b c d a_byte b_byte c_byte d_byte =
    let p : d * 65536 + b ≡ d * 256 * 256 + b = omega arith in
    let q : c * 65536 + a ≡ c * 256 * 256 + a = omega arith in
    rw
      (
        p,
        or_byte_right (c * 65536 + a) (d * 256) b b_byte,
        q,
        or_byte_left (c * 256) d a a_byte,
        or_byte c d d_byte,
      )
      (omega arith)

-- The second swaps the halves.
swap_halves :
    (low a b : ℕ)
    → a < 256
    → b < 256
    → bit_or (low * 65536) (a * 256 + b) ≡ low * 65536 + a * 256 + b
swap_halves low a b a_byte b_byte =
    let p : low * 65536 ≡ low * 256 * 256 = omega arith in
    rw (p, or_byte_right (low * 256) a b b_byte, or_byte low a a_byte) (omega arith)

pub bswap_lem : (x : ℕ) → bswap x ≡ reversed x
unfolding bswap
bswap_lem x =
    let a = x % 256 in
    let b = x / 256 % 256 in
    let c = x / 65536 % 256 in
    let d = x / 2 ^ 24 % 256 in
    let y = c * 2 ^ 24 + d * 2 ^ 16 + a * 2 ^ 8 + b in
    let p : u32 (bit_and x 0x00ff_00ff * 2 ^ 8) ≡ (c * 65536 + a) * 256 =
      omega (arith, mask_low x) in
    let q : bit_and x 0xff00_ff00 / 2 ^ 8 ≡ d * 65536 + b = omega (arith, mask_high x) in
    let low : u32 (bit_and y 0x0000_ffff * 2 ^ 16) ≡ (a * 256 + b) * 65536 =
      omega (arith, half_low y) in
    let high : bit_and y 0xffff_0000 / 2 ^ 16 ≡ c * 256 + d = omega (arith, half_high y) in
    rw
      (
        p,
        q,
        swap_bytes a b c d (omega arith) (omega arith) (omega arith) (omega arith),
        low,
        high,
        swap_halves (a * 256 + b) c d (omega arith) (omega arith),
      )
      (omega arith)

-- For 32-bit words, `bswap` is its own inverse.
pub bswap-bswap : (x : ℕ) → x < 2 ^ 32 → bswap (bswap x) ≡ x
bswap-bswap x small = rw (bswap_lem x, bswap_lem (reversed x)) (omega arith)

-- A token is the number whose bytes stand at its address with the highest first.
pub token-bytes :
    (m : Mem) (a : ℕ)
    → ((i : ℕ) → m i < 256)
    → token m a ≡ m a * 2 ^ 24 + m (a + 1) * 2 ^ 16 + m (a + 2) * 2 ^ 8 + m (a + 3)
token-bytes m a byte =
    rw (bswap_lem (load32 m a)) (omega (arith, byte a, byte (a + 1), byte (a + 2), byte (a + 3)))

load32-store32 : (m : Mem) (a w : ℕ) → w < 2 ^ 32 → load32 (store32 m a w) a ≡ w
load32-store32 m a w small = ground arith

-- For a token of 32 bits, the word that is stored for it, with its bytes swapped, is read as the token.
pub token-store32 : (m : Mem) (a x : ℕ) → x < 2 ^ 32 → token (store32 m a (bswap x)) a ≡ x
token-store32 m a x small =
    rw (load32-store32 m a (bswap x) (rw (bswap_lem x) (omega arith))) (bswap-bswap x small)
