-- ===== src/Machine/Muldiv/High.antt =====
-- The high words of products.
use boom_stop.Base.{ℕ, ◌^◌, ◌<◌, ◌≡◌, Bool-cases, inl, inr, sub64, is_neg, if◌then◌else◌, arith}
use boom_stop.Machine.Muldiv.{mulh, mulhu, mulhsu}

-- b with the sign of a: what a product of bit patterns has too much in its high word.
abbrev if_negative : ℕ → ℕ → ℕ
if_negative a b = if is_neg a then b else 0

-- For 64-bit words, the high word that is computed for MULH is that for MULHU less each factor whose
-- other factor is negative, and that for MULHSU is that for MULHU less the second factor if the first
-- is negative, on 64 bits.
mulh-mulhu :
    (a b : ℕ)
    → a < 2 ^ 64
    → b < 2 ^ 64
    → (mulh a b ≡ sub64 (sub64 (mulhu a b) (if_negative a b)) (if_negative b a))
      × (mulhsu a b ≡ sub64 (mulhu a b) (if_negative a b))
unfolding mulh mulhu mulhsu
mulh-mulhu a b ha hb = elim (Bool-cases (is_neg a)) [
  | inl na ↦ elim (Bool-cases (is_neg b)) [
    | inl nb ↦ rw (na, nb) (omega arith, omega arith)
    | inr pb ↦ rw (na, pb) (omega arith, omega arith)
  ]
  | inr pa ↦ elim (Bool-cases (is_neg b)) [
    | inl nb ↦ rw (pa, nb) (omega arith, omega arith)
    | inr pb ↦ rw (pa, pb) (omega arith, omega arith)
  ]
]
