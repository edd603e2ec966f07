-- ===== src/Machine/Muldiv/Divide.antt =====
-- Signed quotient and remainder.
use boom_stop.Base.{
  ℕ, zero, suc, ◌+◌, ◌-◌, ◌*◌, ◌/◌, ◌%◌, ◌^◌, ◌≤◌, ◌<◌, ◌≡◌, ◌≢◌, ap, Bool, true, false, Bool-cases,
  inl, inr, u64, is_neg, arith, refl, ◌⊎◌, ◌==◌, ltb, if◌then◌else◌, some, update, bit_and,
}
use native.Mathlib.Nat.{div-add-mod, div-le_self, mod-lt}
use boom_stop.Machine.Muldiv.{
  Regs, Library, sdiv, srem, size_of, with_sign, source1, source2, target, mul_div_value,
  emulate_mul_div,
}

-- A product with a negated factor, as a difference of multiples.
negated_product : (q b : ℕ) → q < 2 ^ 64 → (c : ℕ) × (u64 (2 ^ 64 - q) * b + q * b ≡ 2 ^ 64 * c)
negated_product zero b h = (0, omega arith)
negated_product (suc q) b h =
    let e : u64 (2 ^ 64 - suc q) + suc q ≡ 2 ^ 64 = omega arith in
    (b, omega (arith, ap (λ x. x * b) e))

sizes_product : (q b : ℕ) → b < 2 ^ 64 → q * (2 ^ 64 - b) + q * b ≡ 2 ^ 64 * q
sizes_product q b h =
    let e : 2 ^ 64 - b + b ≡ 2 ^ 64 = omega arith in omega (arith, ap (λ x. q * x) e)

-- The four cases of signs, for the sizes `q` and `r` of the results.
module _ (a b q r : ℕ) (ha : a < 2 ^ 64) (hb : b < 2 ^ 64) (hq : q < 2 ^ 64) where
  both_positive : b * q + r ≡ a → u64 (u64 q * b + u64 r) ≡ a
  both_positive d = let e : u64 q ≡ q = omega arith in rw e (omega (arith, d))

  both_negative : (2 ^ 64 - b) * q + r ≡ 2 ^ 64 - a → u64 (u64 q * b + u64 (2 ^ 64 - r)) ≡ a
  both_negative d =
      let e : u64 q ≡ q = omega arith in let f = sizes_product q b hb in rw e (omega (arith, d, f))

  negative_dividend : b * q + r ≡ 2 ^ 64 - a → u64 (u64 (2 ^ 64 - q) * b + u64 (2 ^ 64 - r)) ≡ a
  negative_dividend d = let (c, e) = negated_product q b hq in omega (arith, d, e)

  negative_divisor : (2 ^ 64 - b) * q + r ≡ a → u64 (u64 (2 ^ 64 - q) * b + u64 r) ≡ a
  negative_divisor d =
      let (c, e) = negated_product q b hq in let f = sizes_product q b hb in omega (arith, d, e, f)

quotient_lt : (a s : ℕ) → a < 2 ^ 64 → a / s < 2 ^ 64
quotient_lt a s h = let le = div-le_self a s in omega (arith, le)

sdiv-srem_lem : (a b : ℕ) → a < 2 ^ 64 → b < 2 ^ 64 → b ≢ 0 → u64 (sdiv a b * b + srem a b) ≡ a
unfolding sdiv srem
sdiv-srem_lem a b ha hb n = elim (Bool-cases (is_neg a)) [
  | inl na ↦
      let small : 2 ^ 64 - a < 2 ^ 64 = ground arith in
      elim (Bool-cases (is_neg b)) [
        | inl nb ↦
            rw (na, nb)
              (both_negative a b ((2 ^ 64 - a) / (2 ^ 64 - b)) ((2 ^ 64 - a) % (2 ^ 64 - b)) ha hb
                (quotient_lt (2 ^ 64 - a) (2 ^ 64 - b) small)
                (div-add-mod (2 ^ 64 - a) (2 ^ 64 - b)))
        | inr pb ↦
            rw (na, pb)
              (negative_dividend a b ((2 ^ 64 - a) / b) ((2 ^ 64 - a) % b) ha hb
                (quotient_lt (2 ^ 64 - a) b small) (div-add-mod (2 ^ 64 - a) b))
      ]
  | inr pa ↦ elim (Bool-cases (is_neg b)) [
    | inl nb ↦
        rw (pa, nb)
          (negative_divisor a b (a / (2 ^ 64 - b)) (a % (2 ^ 64 - b)) ha hb
            (quotient_lt a (2 ^ 64 - b) ha) (div-add-mod a (2 ^ 64 - b)))
    | inr pb ↦
        rw (pa, pb) (both_positive a b (a / b) (a % b) ha hb (quotient_lt a b ha) (div-add-mod a b))
  ]
]

-- The word of a size and a sign has that size again.
size-with_sign : (negative : Bool) (n : ℕ) → n < 2 ^ 63 → size_of (with_sign negative n) ≡ n
size-with_sign true n h = ground arith
size-with_sign false n h = ground arith

-- The size of a word as a signed number.
abbrev pub magnitude : ℕ → ℕ
magnitude x = if ltb x (2 ^ 63) then x else 2 ^ 64 - x

magnitude_lt : (x y : ℕ) → size_of x < size_of y → magnitude x < magnitude y
magnitude_lt x y h = ground (arith, h)

srem-magnitude : (a b : ℕ) → a < 2 ^ 64 → b < 2 ^ 64 → b ≢ 0 → magnitude (srem a b) < magnitude b
unfolding srem
srem-magnitude a b ha hb n =
    let pos : 0 < size_of b = ground arith in
    let most : size_of b ≤ 2 ^ 63 = ground arith in
    let lt : size_of a % size_of b < size_of b = mod-lt (size_of a) pos in
    let e = size-with_sign (is_neg a) (size_of a % size_of b) (omega (arith, lt, most)) in
    let f : size_of (srem a b) < size_of b = rw e lt in magnitude_lt (srem a b) b f

with_sign_sign :
    (s : Bool) (n : ℕ) → n < 2 ^ 63 → (with_sign s n ≡ 0) ⊎ (is_neg (with_sign s n) ≡ s)
with_sign_sign true zero h = inl refl
with_sign_sign true (suc n) h = inr (ground arith)
with_sign_sign false n h = inr (ground arith)

srem_sign :
    (a b : ℕ) → a < 2 ^ 64 → b < 2 ^ 64 → b ≢ 0 → (srem a b ≡ 0) ⊎ (is_neg (srem a b) ≡ is_neg a)
unfolding srem
srem_sign a b ha hb n =
    let pos : 0 < size_of b = ground arith in
    let most : size_of b ≤ 2 ^ 63 = ground arith in
    let lt : size_of a % size_of b < size_of b = mod-lt (size_of a) pos in
    with_sign_sign (is_neg a) (size_of a % size_of b) (omega (arith, lt, most))

module _ (library : Library) (insn : ℕ) (regs : Regs) where
  emulated :
      (val : ℕ)
      → mul_div_value library insn (regs (source1 insn)) (regs (source2 insn)) ≡ some val
      → emulate_mul_div library insn regs ≡ some (update regs (target insn) val)
  unfolding emulate_mul_div
  emulated val e = rw (e, emulate_mul_div) refl

  div_value :
      (a b : ℕ)
      → bit_and insn 0xfe00707f ≡ 0x2004033
      → b ≢ 0
      → mul_div_value library insn a b ≡ some (sdiv a b)
  unfolding mul_div_value
  div_value a b e n = let z : (b == 0) ≡ false = ground arith in rw (e, z) refl

  rem_value :
      (a b : ℕ)
      → bit_and insn 0xfe00707f ≡ 0x2006033
      → b ≢ 0
      → mul_div_value library insn a b ≡ some (srem a b)
  unfolding mul_div_value
  rem_value a b e n = let z : (b == 0) ≡ false = ground arith in rw (e, z) refl

-- A DIV and a REM of the same two registers, which hold 64-bit words, the second not 0: both are
-- emulated, each writes its target register and no other, and for the quotient q and the remainder r
-- that they write, q times the divisor plus r is the dividend on 64 bits, r is smaller in size than the
-- divisor, and r is 0 or has the sign of the dividend.
pub emulate_mul_div-divides :
    (library : Library) (div rem s1 s2 : ℕ) (regs : Regs)
    → bit_and div 0xfe00707f ≡ 0x2004033
    → bit_and rem 0xfe00707f ≡ 0x2006033
    → (div / 2 ^ 15 % 32 ≡ s1) × (div / 2 ^ 20 % 32 ≡ s2)
    → (rem / 2 ^ 15 % 32 ≡ s1) × (rem / 2 ^ 20 % 32 ≡ s2)
    → regs s1 < 2 ^ 64
    → regs s2 < 2 ^ 64
    → regs s2 ≢ 0
    → (q : ℕ) × (r : ℕ) × (emulate_mul_div library div regs
        ≡ some (update regs (div / 2 ^ 7 % 32) q))
      × (emulate_mul_div library rem regs ≡ some (update regs (rem / 2 ^ 7 % 32) r))
      × (u64 (q * regs s2 + r) ≡ regs s1)
      × (magnitude r < magnitude (regs s2))
      × ((r ≡ 0) ⊎ (is_neg r ≡ is_neg (regs s1)))
emulate_mul_div-divides library div rem s1 s2 regs d e (d1, d2) (e1, e2) ha hb n =
    let a = regs s1 in
    let b = regs s2 in
    let quotient : mul_div_value library div (regs (source1 div)) (regs (source2 div))
        ≡ some (sdiv a b) =
      rw (d1, d2) (div_value library div regs a b d n) in
    let remainder : mul_div_value library rem (regs (source1 rem)) (regs (source2 rem))
        ≡ some (srem a b) =
      rw (e1, e2) (rem_value library rem regs a b e n) in
    (
      sdiv a b,
      srem a b,
      emulated library div regs (sdiv a b) quotient,
      emulated library rem regs (srem a b) remainder,
      sdiv-srem_lem a b ha hb n,
      srem-magnitude a b ha hb n,
      srem_sign a b ha hb n,
    )
