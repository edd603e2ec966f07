-- ===== src/Machine/Emulation/Bits.antt =====
-- Bits of the words that machine/emulation.c computes.
use boom_stop.Base.{ℕ, zero, suc, ◌-◌, ◌*◌, ◌/◌, ◌^◌, ◌<◌, ◌≡◌, refl, ◌∙◌, not, ◌&&◌, arith}
use boom_stop.Machine.Trap.{bit}
use boom_stop.Machine.Trap.Redirect.{bit-bit_and}
use boom_stop.Machine.Emulation.{and_not}
use native.Mathlib.Nat.{pow-suc}

bit_complement : (n i b : ℕ) → i < n → b < 2 ^ n → bit i (2 ^ n - 1 - b) ≡ not (bit i b)
bit_complement zero i b low small = absurd (omega arith)
bit_complement (suc n) zero b low small =
    let double : 2 ^ suc n ≡ 2 * 2 ^ n = omega (arith, pow-suc 2 n) in ground (arith, double)
bit_complement (suc n) (suc i) b low small =
    let double : 2 ^ suc n ≡ 2 * 2 ^ n = omega (arith, pow-suc 2 n) in
    let half : (2 ^ suc n - 1 - b) / 2 ≡ 2 ^ n - 1 - b / 2 = omega (arith, double, small) in
    rw half (bit_complement n i (b / 2) (omega arith) (omega (arith, double, small)))

-- a & ~b has the bits of a that are not in b.
pub bit-and_not :
    (i a b : ℕ) → i < 64 → b < 2 ^ 64 → bit i (and_not a b) ≡ (bit i a && not (bit i b))
bit-and_not i a b low small =
    bit-bit_and i a (2 ^ 64 - 1 - b) ∙ rw (bit_complement 64 i b low small) refl
