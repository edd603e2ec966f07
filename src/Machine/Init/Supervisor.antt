-- ===== src/Machine/Init/Supervisor.antt =====
-- The status with which supervisor mode is entered.
use boom_stop.Base.{
  ℕ, zero, suc, ◌-◌, ◌*◌, ◌/◌, ◌^◌, ◌<◌, ◌≡◌, refl, ◌∙◌, ap, Bool, true, false, not, ◌&&◌, ◌||◌,
  ◌==◌, if◌then◌else◌, arith, bit_or, bit_and,
}
use boom_stop.Machine.Trap.{bit}
use boom_stop.Machine.Trap.Redirect.{bit-bit_or, bit_zero}
use boom_stop.Machine.Emulation.Bits.{bit-and_not}
use boom_stop.Machine.Init.{Start, supervisor_status, enter_supervisor_mode}
use native.Mathlib.Nat.{pow-suc}

bit_power : (i k : ℕ) → bit i (2 ^ k) ≡ (i == k)
bit_power zero zero = refl
bit_power (suc i) zero = bit_zero i ∙ ground arith
bit_power zero (suc k) =
    let double : 2 ^ suc k ≡ 2 * 2 ^ k = omega (arith, pow-suc 2 k) in ground (arith, double)
bit_power (suc i) (suc k) =
    let half : 2 ^ suc k / 2 ≡ 2 ^ k = omega (arith, pow-suc 2 k) in
    rw half (bit_power i k ∙ ground arith)

-- MPP is 1, the supervisor, and MPIE is 0.
abbrev pub entered : (x i : ℕ) → Bool
entered x i = if i == 11 then true else if i == 12 || i == 7 then false else bit i x

combined :
    (b : Bool) (i : ℕ)
    → ((((b && not ((i == 11) || (i == 12))) || (i == 11)) && not (i == 7)) || false)
      ≡ (if i == 11 then true else if i == 12 || i == 7 then false else b)
combined true i = ground arith
combined false i = ground arith

bit-supervisor_status : (i x : ℕ) → x < 2 ^ 64 → i < 64 → bit i (supervisor_status x) ≡ entered x i
bit-supervisor_status i x small low =
    let mpp : bit i 0x1800 ≡ ((i == 11) || (i == 12)) =
      bit-bit_or i 0x800 0x1000
      ∙ ap (λ b. b || bit i 0x1000) (bit_power i 11)
      ∙ ap (λ b. (i == 11) || b) (bit_power i 12) in
    let e1 =
      bit-bit_or i (bit_and (bit_or (bit_and x (2 ^ 64 - 1 - 0x1800)) 0x800) (2 ^ 64 - 1 - 0x80))
        0 in
    let e2 =
      bit-and_not i (bit_or (bit_and x (2 ^ 64 - 1 - 0x1800)) 0x800) 0x80 low (omega arith) in
    let e3 = bit-bit_or i (bit_and x (2 ^ 64 - 1 - 0x1800)) 0x800 in
    let e4 = bit-and_not i x 0x1800 low (omega arith) in
    let b7 : bit i 0x80 ≡ (i == 7) = bit_power i 7 in
    let b11 : bit i 0x800 ≡ (i == 11) = bit_power i 11 in
    e1
    ∙ ap (λ b. b || bit i 0)
        (e2 ∙ ap (λ b. b && not (bit i 0x80)) (e3 ∙ ap (λ b. b || bit i 0x800) e4))
    ∙ rw (mpp, b11, b7, bit_zero i) (combined (bit i x) i)

-- For a status of 64 bits, supervisor mode is entered at the function with the two arguments, with the
-- previous mode in the status the supervisor, MPIE clear, and each other bit of the status kept.
pub enter_supervisor_mode-entered :
    (fn arg0 arg1 : ℕ) (s : Start)
    → s.mstatus < 2 ^ 64
    → (((enter_supervisor_mode fn arg0 arg1 s).start.mepc ≡ fn)
        × ((enter_supervisor_mode fn arg0 arg1 s).arg0 ≡ arg0)
        × ((enter_supervisor_mode fn arg0 arg1 s).arg1 ≡ arg1))
      × ((i : ℕ)
          → i < 64
          → bit i ((enter_supervisor_mode fn arg0 arg1 s).start.mstatus) ≡ entered s.mstatus i)
unfolding enter_supervisor_mode
enter_supervisor_mode-entered fn arg0 arg1 s small =
    ((refl, refl, refl), λ i low. bit-supervisor_status i s.mstatus small low)
