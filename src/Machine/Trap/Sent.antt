-- ===== src/Machine/Trap/Sent.antt =====
-- The harts that a request for interrupts reaches.
use boom_stop.Base.{
  ℕ, zero, suc, ◌+◌, ◌/◌, ◌%◌, ◌<◌, ◌≡◌, refl, ◌∙◌, ap, subst, Bool, true, false, not, ◌&&◌, ◌||◌,
  ◌==◌, bit_or, Bool-cases, inl, inr, arith, if◌then◌else◌,
}
use boom_stop.Base.Cmd.{Returns, returns}
use boom_stop.Machine.Trap.Redirect.{bit-bit_and}
use boom_stop.Machine.Trap.{HartState, bit, send_ipi, send_all, send_ipi_many, recipients, ipi_soft}

-- What a hart has after an interrupt for `event`, if it is one of those that get it.
pub record Sent (event : ℕ) (gets : Bool) (i : ℕ) (h k : HartState) : Type 0 where
  pub ipi : k.ipi i ≡ (if gets then 1 else h.ipi i)
  pub pending :
      k.mipi_pending i ≡ (if gets then bit_or (h.mipi_pending i) event else h.mipi_pending i)
  pub masked : k.disabled_hart_mask ≡ h.disabled_hart_mask

unsent : (event i : ℕ) (h : HartState) → Sent event false i h h
unsent event i h = record { ipi = refl; pending = refl; masked = refl }

then_unsent :
    (event : ℕ) (gets : Bool) (i : ℕ) (h k l : HartState)
    → Sent event gets i h k
    → Sent event false i k l
    → Sent event gets i h l
then_unsent event gets i h k l s t = record {
  ipi = t.ipi ∙ s.ipi;
  pending = t.pending ∙ s.pending;
  masked = t.masked ∙ s.masked;
}

after_unsent :
    (event : ℕ) (gets : Bool) (i : ℕ) (h k l : HartState)
    → Sent event false i h k
    → Sent event gets i k l
    → Sent event gets i h l
after_unsent event gets i h k l s t = record {
  ipi = t.ipi ∙ ap (λ x. if gets then 1 else x) s.ipi;
  pending = t.pending ∙ ap (λ x. if gets then bit_or x event else x) s.pending;
  masked = t.masked ∙ s.masked;
}

-- One round, for its own hart and for another.
abbrev round : (event i m : ℕ) → HartState → HartState
round event i m h = if m % 2 == 1 then send_ipi i event h else h

round-Sent :
    (event i m : ℕ) (h : HartState)
    → Sent event (bit 0 m && not (bit i h.disabled_hart_mask)) i h (round event i m h)
unfolding send_ipi
round-Sent event i m h = elim (Bool-cases (m % 2 == 1)) [
  | inl t ↦ elim (Bool-cases (bit i h.disabled_hart_mask)) [
    | inl d ↦ rw (t, d) (unsent event i h)
    | inr d ↦
        let self : (i == i) ≡ true = ground arith in
        rw (t, d) (record { ipi = rw self refl; pending = rw self refl; masked = refl })
  ]
  | inr t ↦ rw t (unsent event i h)
]

round_other :
    (event i m j : ℕ) (h : HartState) → (i == j) ≡ false → Sent event false j h (round event i m h)
unfolding send_ipi
round_other event i m j h other = elim (Bool-cases (m % 2 == 1)) [
  | inl t ↦ elim (Bool-cases (bit i h.disabled_hart_mask)) [
    | inl d ↦ rw (t, d) (unsent event j h)
    | inr d ↦ rw (t, d) (record { ipi = rw other refl; pending = rw other refl; masked = refl })
  ]
  | inr t ↦ rw t (unsent event j h)
]

-- The rounds from hart `i` on leave the ones before it.
send_all_below :
    (rounds event i m j : ℕ) (h : HartState)
    → j < i
    → Sent event false j h (send_all rounds event i m h)
unfolding send_all
send_all_below zero event i m j h below = unsent event j h
send_all_below (suc rounds) event i m j h below =
    then_unsent event false j h (round event i m h) _ (round_other event i m j h (ground arith))
      (send_all_below rounds event (i + 1) (m / 2) j (round event i m h) (omega arith))

send_all-Sent :
    (rounds event i m j : ℕ) (h : HartState)
    → j < rounds
    → Sent event
        (bit j m && not (bit (i + j) h.disabled_hart_mask))
        (i + j)
        h
        (send_all rounds event i m h)
unfolding send_all
send_all-Sent zero event i m j h low = ground arith
send_all-Sent (suc rounds) event i m zero h low =
    let z : i + 0 ≡ i = omega arith in
    rw z (
      then_unsent event _ i h (round event i m h) _ (round-Sent event i m h)
        (send_all_below rounds event (i + 1) (m / 2) i (round event i m h) (omega arith)))
send_all-Sent (suc rounds) event i m (suc j) h low =
    let z : i + suc j ≡ i + 1 + j = omega arith in
    let first = round_other event i m (i + 1 + j) h (ground arith) in
    let rest = send_all-Sent rounds event (i + 1) (m / 2) j (round event i m h) (omega arith) in
    rw z
      (after_unsent event _ (i + 1 + j) h (round event i m h) _ first (rw (first.masked) at rest))

-- Hart `j` is there, and the request is for all harts or has its bit set in the mask at `pmask`.
abbrev pub asked : (pmask j : ℕ) → HartState → Bool
asked pmask j h = bit j h.hart_mask && (pmask == 0 || bit j (h.user_word pmask))

bit-recipients : (pmask j : ℕ) (h : HartState) → bit j (recipients pmask h) ≡ asked pmask j h
bit-recipients pmask j h = elim (Bool-cases (pmask == 0)) [
  | inl z ↦ rw z (both_true (bit j h.hart_mask))
  | inr n ↦ rw n (bit-bit_and j h.hart_mask (h.user_word pmask))
]
  where
    both_true : (b : Bool) → b ≡ (b && true)
    both_true true = refl
    both_true false = refl

-- A request for software interrupts returns without a wait, and each hart below 64 that is there and not
-- disabled, and whose bit is set in the mask at the address given or for which no mask is given, has its
-- interrupt raised and the event added to the pending ones; every other hart below 64 has what it had.
pub send_ipi_many-Sent :
    (others : HartState → HartState) (fuel pmask : ℕ) (h : HartState)
    → Returns
        (λ _ k.
          (j : ℕ)
          → j < 64
          → Sent ipi_soft (asked pmask j h && not (bit j h.disabled_hart_mask)) j h k)
        (send_ipi_many others fuel pmask ipi_soft h)
unfolding send_ipi_many
send_ipi_many-Sent others fuel pmask h = returns λ j low.
    let z : 0 + j ≡ j = omega arith in
    let sent = rw z at (send_all-Sent 64 ipi_soft 0 (recipients pmask h) j h low) in
    subst
      (λ b.
        Sent ipi_soft (b && not (bit j h.disabled_hart_mask)) j h
          (send_all 64 ipi_soft 0 (recipients pmask h) h))
      (bit-recipients pmask j h) sent
