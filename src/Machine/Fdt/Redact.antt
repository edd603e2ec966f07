-- ===== src/Machine/Fdt/Redact.antt =====
-- The entries that `filter_plic` rewrites.
use boom_stop.Base.{
  ℕ, zero, suc, ◌+◌, ◌-◌, ◌*◌, ◌%◌, ◌^◌, ◌<◌, ◌≡◌, refl, ◌∙◌, ap, Bool, false, ◌&&◌, arith, ◌==◌,
  if◌then◌else◌, inl, inr, Bool-cases, leb, ltb,
}
use boom_stop.Util.{Mem}
use boom_stop.Machine.Fdt.{token, store32, bswap}
use boom_stop.Machine.Fdt.Words.{token-store32}
use boom_stop.Machine.Fdt.Interrupts.{redact_loop, irq_m_ext}

-- One entry.
abbrev redact_one : ℕ → Mem → Mem
redact_one a m = if token m a == irq_m_ext then store32 m a (bswap (2 ^ 32 - 1)) else m

token-redact_one :
    (a : ℕ) (m : Mem)
    → token (redact_one a m) a ≡ (if token m a == irq_m_ext then 2 ^ 32 - 1 else token m a)
token-redact_one a m = elim (Bool-cases (token m a == irq_m_ext)) [
  | inl t ↦ rw t (token-store32 m a (2 ^ 32 - 1) (omega arith))
  | inr t ↦ rw t refl
]

store32_other : (m : Mem) (a w b : ℕ) → (leb a b && ltb b (a + 4)) ≡ false → store32 m a w b ≡ m b
store32_other m a w b out = ground arith

redact_one_other : (m : Mem) (a b : ℕ) → (leb a b && ltb b (a + 4)) ≡ false → redact_one a m b ≡ m b
redact_one_other m a b out = elim (Bool-cases (token m a == irq_m_ext)) [
  | inl t ↦ rw t (store32_other m a (bswap (2 ^ 32 - 1)) b out)
  | inr t ↦ rw t refl
]

-- A byte is in the second word of one of the entries.
abbrev pub in_second : (count value b : ℕ) → Bool
in_second count value b = leb value b && ltb b (value + 8 * count) && leb 4 ((b - value) % 8)

redact_loop_other :
    (count value b : ℕ) (m : Mem)
    → in_second count value b ≡ false
    → redact_loop count value m b ≡ m b
unfolding redact_loop
redact_loop_other zero value b m out = refl
redact_loop_other (suc count) value b m out =
    redact_loop_other count (value + 8) b (redact_one (value + 4) m) (ground arith)
    ∙ redact_one_other m (value + 4) b (ground arith)

-- Four bytes that are the same make the same token.
token-cong :
    (m m2 : Mem) (a : ℕ) → ((i : ℕ) → i < 4 → m (a + i) ≡ m2 (a + i)) → token m a ≡ token m2 a
token-cong m m2 a same =
    let z : a + 0 ≡ a = omega arith in
    let e0 : m a ≡ m2 a = rw z at (same 0 (omega arith)) in
    let e1 = same 1 (omega arith) in
    let e2 = same 2 (omega arith) in
    let e3 = same 3 (omega arith) in ap bswap (rw (e0, e1, e2, e3) refl)

redact_loop-token :
    (count value i : ℕ) (m : Mem)
    → i < count
    → token (redact_loop count value m) (value + 8 * i + 4) ≡ (
        if token m (value + 8 * i + 4) == irq_m_ext
        then 2 ^ 32 - 1
        else token m (value + 8 * i + 4))
unfolding redact_loop
redact_loop-token zero value i m small = absurd (omega arith)
redact_loop-token (suc count) value zero m small =
    let z : value + 8 * 0 + 4 ≡ value + 4 = omega arith in
    rw z (
      token-cong (redact_loop count (value + 8) (redact_one (value + 4) m))
        (redact_one (value + 4) m) (value + 4)
        (λ i l.
          redact_loop_other count (value + 8) (value + 4 + i) (redact_one (value + 4) m)
            (ground arith))
      ∙ token-redact_one (value + 4) m)
redact_loop-token (suc count) value (suc i) m small =
    let z : value + 8 * suc i + 4 ≡ value + 8 + 8 * i + 4 = omega arith in
    let same : token (redact_one (value + 4) m) (value + 8 + 8 * i + 4)
        ≡ token m (value + 8 + 8 * i + 4) =
      token-cong (redact_one (value + 4) m) m (value + 8 + 8 * i + 4)
        (λ j l. redact_one_other m (value + 4) (value + 8 + 8 * i + 4 + j) (ground arith)) in
    rw z (
      rw same at
        (redact_loop-token count (value + 8) i (redact_one (value + 4) m) (omega (arith, small))))

-- The loop of `filter_plic` over the entries of an interrupt controller turns the interrupt of each
-- entry that is the external one of machine mode into -1, keeps that of each other entry, and changes
-- no byte that is not in the second word of an entry.
pub redact_loop-masks :
    (count value : ℕ) (m : Mem)
    → ((i : ℕ)
        → i < count
        → token (redact_loop count value m) (value + 8 * i + 4) ≡ (
            if token m (value + 8 * i + 4) == irq_m_ext
            then 2 ^ 32 - 1
            else token m (value + 8 * i + 4)))
      × ((b : ℕ) → in_second count value b ≡ false → redact_loop count value m b ≡ m b)
redact_loop-masks count value m = (
  λ i small. redact_loop-token count value i m small,
  λ b out. redact_loop_other count value b m out,
)
