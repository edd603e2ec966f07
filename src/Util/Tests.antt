-- ===== src/Util/Tests.antt =====
-- The theorems on util/, at concrete memories.
use boom_stop.Util.Print.{
  vsnprintf, print_loop, format_char, next_number, next_arg, put_decimal, put_digits, count_digits,
  put,
}
use boom_stop.Util.Print.Ended.Whole.{vsnprintf-Bounded}
use boom_stop.Base.Cmd.{Returns}
use boom_stop.Base.{ℕ, ◌+◌, ◌≤◌, ◌≡◌, refl, ◌<◌, inr, [], ◌∷◌, update, fill, arith, neg}
use boom_stop.Base.Cmd.{Returns, returns, ok}
use boom_stop.Util.{Mem, memcpy, memset}
use boom_stop.Util.Copy.{memcpy-copies}
use boom_stop.Util.Fill.{memset-fills}
use boom_stop.Util.Text.{atol}
use boom_stop.Util.Text.Stored.{Stored}
use boom_stop.Util.Text.Number.{minus, atol-Stored}

-- "ab" at 100, "ac" at 200, " -42" at 300.
abbrev memory : Mem
memory =
    update
      (update
        (update
          (update (update (update (update (update (λ _. 0) 100 97) 101 98) 200 97) 201 99) 300 32)
          301 45)
        302 52)
      303 50

ab-Stored : Stored memory 100 (97 ∷ 98 ∷ [])
ab-Stored = (refl, omega arith, omega arith, (refl, omega arith, omega arith, refl))

ac-Stored : Stored memory 200 (97 ∷ 99 ∷ [])
ac-Stored = (refl, omega arith, omega arith, (refl, omega arith, omega arith, refl))

memcpy-copies_example :
    Returns
      (λ r m'. (r ≡ 400) × (m' ≡ fill memory 400 13 (λ i. memory (96 + i))))
      (memcpy 400 96 13 memory)
memcpy-copies_example =
    memcpy-copies memory 400 96 13 (inr (omega arith)) (omega arith) (omega arith) (omega arith)

memset-fills_example :
    Returns (λ r m'. (r ≡ 96) × (m' ≡ fill memory 96 16 (λ _. 2))) (memset 96 258 16 memory)
memset-fills_example = memset-fills memory 96 258 16 (omega arith)

atol-Stored_example : atol 5 300 memory ≡ ok (neg 42) memory
atol-Stored_example =
    atol-Stored memory 1 minus (4 ∷ 2 ∷ []) 5 300 (omega arith) (omega arith)
      (omega arith, (omega arith, tt))
      (
        refl,
        omega arith,
        omega arith,
        (
          refl,
          omega arith,
          omega arith,
          (refl, omega arith, omega arith, (refl, omega arith, omega arith, refl)),
        ),
      )

-- "%d" of -42 in 8 bytes.
prints_negative :
    Returns
      (λ r m. (r ≡ 3) × (m 0 ≡ 45) × (m 1 ≡ 52) × (m 2 ≡ 50) × (m 3 ≡ 0))
      (vsnprintf (λ a. []) 8 (37 ∷ 100 ∷ []) (neg 42 ∷ []) (λ a. 255))
unfolding vsnprintf print_loop format_char next_number next_arg put_decimal put_digits count_digits
    put
prints_negative = returns (refl, refl, refl, refl, refl)

-- "n %d" with 42, in a buffer of 4 bytes.
vsnprintf-Bounded_example :
    Returns
      (λ _ after.
        ((a : ℕ) → 4 ≤ a → after a ≡ memory a) × (1 ≤ 4 → (k : ℕ) × (k < 4) × (after k ≡ 0)))
      (vsnprintf (λ _. []) 4 (110 ∷ 32 ∷ 37 ∷ 100 ∷ []) (42 ∷ 0 ∷ 0 ∷ 0 ∷ []) memory)
vsnprintf-Bounded_example =
    vsnprintf-Bounded memory 4 (λ _. []) 0 (λ _. omega arith) (110 ∷ 32 ∷ 37 ∷ 100 ∷ [])
      (42 ∷ 0 ∷ 0 ∷ 0 ∷ []) (omega arith) (omega arith)
