-- ===== src/Pk/Start/Stack.antt =====
-- The first stack pointer of the program.
use boom_stop.Base.{
  ℕ, ◌+◌, ◌-◌, ◌*◌, ◌/◌, ◌%◌, ◌^◌, ◌≤◌, ◌<◌, ◌≡◌, u64, sub64, bit_and, bit_and-high, arith,
}
use boom_stop.Pk.Start.{stack_pointer}

-- With room below `top` for the words that are pushed, the stack pointer is a multiple of 16, as the
-- calling convention wants, the words end by `top`, and fewer than 16 bytes are left unused.
pub stack_pointer-fits :
    (top argc naux : ℕ)
    → top < 2 ^ 64
    → (3 + argc + 2 * naux) * 8 + 16 ≤ top
    → (stack_pointer top argc naux % 16 ≡ 0)
      × (stack_pointer top argc naux + (3 + argc + 2 * naux) * 8 ≤ top)
      × (top < stack_pointer top argc naux + (3 + argc + 2 * naux) * 8 + 16)
stack_pointer-fits top argc naux small room =
    let words : ℕ = (1 + argc + 1 + 0 + 1 + 2 * naux) * 8 in
    let e : bit_and (sub64 top (u64 words)) (2 ^ 64 - 16) ≡ sub64 top (u64 words) / 16 * 16 =
      bit_and-high (sub64 top (u64 words)) (omega arith) in
    (omega (arith, e), omega (arith, e), omega (arith, e))
