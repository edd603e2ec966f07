-- ===== src/Machine/Trap/Redirect.antt =====
-- The status after a trap is handed on to supervisor mode.
use boom_stop.Base.{
  ℕ, zero, suc, ◌-◌, ◌*◌, ◌/◌, ◌^◌, ◌≤◌, ◌<◌, ◌≡◌, refl, sym, ◌∙◌, ap, Bool, true, false, ◌&&◌,
  ◌||◌, ◌==◌, bit_and, bit_or, Bool-cases, inl, inr, bit_and-digit, bit_or-digit, u64, arith,
  if◌then◌else◌,
}
use boom_stop.Base.Cmd.{Returns, returns}
use boom_stop.Machine.Trap.{HartState, bit}
use boom_stop.Machine.Trap.Fault.{
  redirected_status, redirect_trap, reported_cause, machine_page_fault, trap_from_machine_mode,
  mstatus_mprv, cause_load_page_fault, cause_fetch_page_fault,
}
use native.Mathlib.Nat.{pow-suc, one-le-pow}

pub bit-bit_and : (i a b : ℕ) → bit i (bit_and a b) ≡ (bit i a && bit i b)
bit-bit_and zero a b = ground (arith, bit_and-digit a b)
bit-bit_and (suc i) a b =
    let half : bit_and a b / 2 ≡ bit_and (a / 2) (b / 2) = omega (arith, bit_and-digit a b) in
    rw half (bit-bit_and i (a / 2) (b / 2))

pub bit-bit_or : (i a b : ℕ) → bit i (bit_or a b) ≡ (bit i a || bit i b)
bit-bit_or zero a b = ground (arith, bit_or-digit a b)
bit-bit_or (suc i) a b =
    let half : bit_or a b / 2 ≡ bit_or (a / 2) (b / 2) = omega (arith, bit_or-digit a b) in
    rw half (bit-bit_or i (a / 2) (b / 2))

bit_ones : (n i : ℕ) → i < n → bit i (2 ^ n - 1) ≡ true
bit_ones zero i low = ground arith
bit_ones (suc n) zero low =
    let double : 2 ^ suc n ≡ 2 * 2 ^ n = omega (arith, pow-suc 2 n) in
    let pos : 1 ≤ 2 ^ n = one-le-pow n 2 (omega arith) in ground (arith, double, pos)
bit_ones (suc n) (suc i) low =
    let double : 2 ^ suc n ≡ 2 * 2 ^ n = omega (arith, pow-suc 2 n) in
    let pos : 1 ≤ 2 ^ n = one-le-pow n 2 (omega arith) in
    let half : (2 ^ suc n - 1) / 2 ≡ 2 ^ n - 1 = omega (arith, double, pos) in
    rw half (bit_ones n i (omega arith))

pub bit_zero : (i : ℕ) → bit i 0 ≡ false
bit_zero zero = refl
bit_zero (suc i) = bit_zero i

-- Each bit of the status that is written, from those of its parts.
parts :
    (i x : ℕ)
    → bit i (redirected_status x)
      ≡ (((bit i x && bit i (2 ^ 64 - 1 - 0x122)) || (bit i (u64 (x * 16)) && bit i 0x20))
          || (bit i (x / 8) && bit i 0x100))
        || bit i 0x800
unfolding redirected_status
parts i x =
    simp (redirected_status, bit-bit_or, bit-bit_and)
      (ap
        (λ b.
          (((bit i x && bit i (2 ^ 64 - 1 - 0x122)) || (bit i (u64 (x * 16)) && bit i 0x20))
            || (bit i (x / 8) && bit i 0x100))
          || b)
        (sym (bit-bit_and i 0x1800 0xc00)))

-- Each bit of a part that is masked is kept, dropped, set, or comes from another part.
keep : (a b c : Bool) → (((a && true) || (b && false)) || (c && false)) || false ≡ a
keep true true true = refl
keep true true false = refl
keep true false true = refl
keep true false false = refl
keep false true true = refl
keep false true false = refl
keep false false true = refl
keep false false false = refl

drop : (a b c : Bool) → (((a && false) || (b && false)) || (c && false)) || false ≡ false
drop true true true = refl
drop true true false = refl
drop true false true = refl
drop true false false = refl
drop false true true = refl
drop false true false = refl
drop false false true = refl
drop false false false = refl

second : (a b c : Bool) → (((a && false) || (b && true)) || (c && false)) || false ≡ b
second true true true = refl
second true true false = refl
second true false true = refl
second true false false = refl
second false true true = refl
second false true false = refl
second false false true = refl
second false false false = refl

third : (a b c : Bool) → (((a && false) || (b && false)) || (c && true)) || false ≡ c
third true true true = refl
third true true false = refl
third true false true = refl
third true false false = refl
third false true true = refl
third false true false = refl
third false false true = refl
third false false false = refl

set : (a b c : Bool) → (((a && true) || (b && false)) || (c && false)) || true ≡ true
set true true true = refl
set true true false = refl
set true false true = refl
set true false false = refl
set false true true = refl
set false true false = refl
set false false true = refl
set false false false = refl

high_bit :
    (i x : ℕ)
    → i < 52
    → bit
        (suc (suc (suc (suc (suc (suc (suc (suc (suc (suc (suc (suc i))))))))))))
        (redirected_status x)
      ≡ bit (suc (suc (suc (suc (suc (suc (suc (suc (suc (suc (suc (suc i)))))))))))) x
high_bit i x low =
    parts (suc (suc (suc (suc (suc (suc (suc (suc (suc (suc (suc (suc i)))))))))))) x
    ∙ rw (bit_ones 52 i low, bit_zero i)
        (keep (bit (suc (suc (suc (suc (suc (suc (suc (suc (suc (suc (suc (suc i)))))))))))) x)
          (bit (suc (suc (suc (suc (suc (suc (suc (suc (suc (suc (suc (suc i))))))))))))
            (u64 (x * 16)))
          (bit (suc (suc (suc (suc (suc (suc (suc (suc (suc (suc (suc (suc i)))))))))))) (x / 8)))

-- What the bits of the status become: SIE is bit 1, SPIE bit 5, SPP bit 8 and MPP bits 11 and 12.
abbrev pub handed_on : (x i : ℕ) → Bool
handed_on x i =
    if i == 1
    then false
    else if i == 5
    then bit 1 x
    else if i == 8
    then bit 11 x
    else if i == 11
    then true
    else bit i x

pub redirected_bit : (i x : ℕ) → x < 2 ^ 64 → i < 64 → bit i (redirected_status x) ≡ handed_on x i
redirected_bit zero x small low = parts 0 x ∙ keep (bit 0 x) (bit 0 (u64 (x * 16))) (bit 0 (x / 8))
redirected_bit (suc zero) x small low =
    parts 1 x ∙ drop (bit 1 x) (bit 1 (u64 (x * 16))) (bit 1 (x / 8))
redirected_bit (suc (suc zero)) x small low =
    parts 2 x ∙ keep (bit 2 x) (bit 2 (u64 (x * 16))) (bit 2 (x / 8))
redirected_bit (suc (suc (suc zero))) x small low =
    parts 3 x ∙ keep (bit 3 x) (bit 3 (u64 (x * 16))) (bit 3 (x / 8))
redirected_bit (suc (suc (suc (suc zero)))) x small low =
    parts 4 x ∙ keep (bit 4 x) (bit 4 (u64 (x * 16))) (bit 4 (x / 8))
redirected_bit (suc (suc (suc (suc (suc zero))))) x small low =
    parts 5 x
    ∙ second (bit 5 x) (bit 5 (u64 (x * 16))) (bit 5 (x / 8))
    ∙ ap (λ d. d == 1) (omega arith)
redirected_bit (suc (suc (suc (suc (suc (suc zero)))))) x small low =
    parts 6 x ∙ keep (bit 6 x) (bit 6 (u64 (x * 16))) (bit 6 (x / 8))
redirected_bit (suc (suc (suc (suc (suc (suc (suc zero))))))) x small low =
    parts 7 x ∙ keep (bit 7 x) (bit 7 (u64 (x * 16))) (bit 7 (x / 8))
redirected_bit (suc (suc (suc (suc (suc (suc (suc (suc zero)))))))) x small low =
    parts 8 x
    ∙ third (bit 8 x) (bit 8 (u64 (x * 16))) (bit 8 (x / 8))
    ∙ ap (λ d. d == 1) (omega arith)
redirected_bit (suc (suc (suc (suc (suc (suc (suc (suc (suc zero))))))))) x small low =
    parts 9 x ∙ keep (bit 9 x) (bit 9 (u64 (x * 16))) (bit 9 (x / 8))
redirected_bit (suc (suc (suc (suc (suc (suc (suc (suc (suc (suc zero)))))))))) x small low =
    parts 10 x ∙ keep (bit 10 x) (bit 10 (u64 (x * 16))) (bit 10 (x / 8))
redirected_bit (suc (suc (suc (suc (suc (suc (suc (suc (suc (suc (suc zero))))))))))) x small low =
    parts 11 x ∙ set (bit 11 x) (bit 11 (u64 (x * 16))) (bit 11 (x / 8))
redirected_bit (suc (suc (suc (suc (suc (suc (suc (suc (suc (suc (suc (suc j)))))))))))) x small
      low =
    let k = (suc (suc (suc (suc (suc (suc (suc (suc (suc (suc (suc (suc j)))))))))))) in
    let e1 : (k == 1) ≡ false = ground arith in
    let e2 : (k == 5) ≡ false = ground arith in
    let e3 : (k == 8) ≡ false = ground arith in
    let e4 : (k == 11) ≡ false = ground arith in
    high_bit j x (omega arith) ∙ rw (e1, e2, e3, e4) refl

mprv_lem : (x : ℕ) → bit 17 x ≡ true → (bit_and x mstatus_mprv == 0) ≡ false
mprv_lem x t =
    let b : bit 17 (bit_and x mstatus_mprv) ≡ true = bit-bit_and 17 x mstatus_mprv ∙ rw t refl in
    elim (Bool-cases (bit_and x mstatus_mprv == 0)) [
      | inl e ↦ (let z : bit_and x mstatus_mprv ≡ 0 = ground arith in cc (rw z at b))
      | inr e ↦ e
    ]

-- A trap in machine mode during the emulation of an access for the program, which is a page fault of a
-- load that was to read the instruction, is handed on to supervisor mode as a page fault of a fetch:
-- the program counter and status that the emulation kept, the address of the fault and the entry of
-- the supervisor are in place, and of the 64 bits of the status SIE is cleared, SPIE is what SIE was,
-- SPP what the lower bit of MPP was, that bit is set, and each other bit is kept.
pub trap_from_machine_mode-handed_on :
    (h : HartState)
    → h.regs 13 < 2 ^ 64
    → h.mcause ≡ cause_load_page_fault
    → h.regs 11 ≡ 0xa0000
    → bit 17 h.mstatus ≡ true
    → Returns
        (λ _ k.
          (k.sepc ≡ h.regs 12)
          × (k.scause ≡ cause_fetch_page_fault)
          × (k.sbadaddr ≡ h.mbadaddr)
          × (k.mepc ≡ h.stvec)
          × ((i : ℕ) → i < 64 → bit i k.mstatus ≡ handed_on (h.regs 13) i))
        (trap_from_machine_mode h)
unfolding trap_from_machine_mode machine_page_fault reported_cause redirect_trap
trap_from_machine_mode-handed_on h small cause kept mprv =
    let on = mprv_lem h.mstatus mprv in
    rw (cause, on, kept)
      (returns (refl, refl, refl, refl, λ i low. redirected_bit i (h.regs 13) small low))
