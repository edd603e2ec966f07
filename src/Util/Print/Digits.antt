-- ===== src/Util/Print/Digits.antt =====
-- How many digits `%d` prints.
use boom_stop.Base.{
  ℕ, zero, suc, ◌+◌, ◌-◌, ◌/◌, ◌^◌, ◌≤◌, ◌<◌, ◌≡◌, refl, ◌≢◌, ◌⊎◌, inl, inr, false, leb, ◌==◌,
  is_neg, arith, Bool-cases,
}
use native.Mathlib.Nat.{pow-suc, pow-le-pow_right}
use boom_stop.Util.Print.{count_digits, tenth}

tenth_lem : (num : ℕ) → num < 2 ^ 63 → tenth num ≡ num / 10
tenth_lem num h = let f : is_neg num ≡ false = ground arith in rw f refl

at_least : (nn extra : ℕ) → nn / 10 ≢ 0 → (extra ≡ 0) ⊎ (10 ^ extra ≤ nn / 10) → 10 ^ suc extra ≤ nn
at_least nn extra nonzero (inl z) = rw z (omega arith)
at_least nn extra nonzero (inr le) = omega (arith, le, pow-suc 10 extra)

-- `extra` more digits, for a number below 10 ^ (fuel + 1).
count_from :
    (fuel nn digits : ℕ)
    → nn < 2 ^ 63
    → nn < 10 ^ suc fuel
    → (extra : ℕ) × (count_digits fuel nn digits ≡ digits + extra)
      × (nn < 10 ^ suc extra)
      × ((extra ≡ 0) ⊎ (10 ^ extra ≤ nn))
unfolding count_digits
count_from zero nn digits small fits = (0, omega arith, fits, inl refl)
count_from (suc fuel) nn digits small fits = elim (Bool-cases (tenth nn == 0)) [
  | inl t ↦
      let q : tenth nn ≡ nn / 10 = tenth_lem nn small in
      let z : tenth nn ≡ 0 = ground arith in rw t (0, omega arith, omega (arith, q, z), inl refl)
  | inr f ↦
      let q : tenth nn ≡ nn / 10 = tenth_lem nn small in
      let nonzero : nn / 10 ≢ 0 = ground (arith, q) in
      let (extra, e, upper, lower) =
        count_from fuel (nn / 10) (digits + 1) (omega arith)
          (omega (arith, pow-suc 10 (suc fuel))) in
      rw (f, q)
        (
          suc extra,
          omega (arith, e),
          omega (arith, upper, pow-suc 10 (suc extra)),
          inr (at_least nn extra nonzero lower),
        )
]

below_19 : (num extra : ℕ) → num < 2 ^ 63 → (extra ≡ 0) ⊎ (10 ^ extra ≤ num) → extra ≤ 18
below_19 num extra small (inl z) = omega arith
below_19 num extra small (inr le) = elim (Bool-cases (leb extra 18)) [
  | inl t ↦ ground arith
  | inr f ↦
      let big : 19 ≤ extra = ground arith in
      let most : 10 ^ 19 ≤ 10 ^ extra = pow-le-pow_right (omega arith) big in
      absurd (omega (arith, most))
]

-- The loop of `%d` stops within its 20 rounds for every number that is not negative, and counts its
-- decimal digits: a number of more than one digit is at least 10 ^ (digits - 1), and every number is
-- below 10 ^ digits.
count_digits-exact :
    (num : ℕ)
    → num < 2 ^ 63
    → (num < 10 ^ count_digits 20 num 1)
      × ((count_digits 20 num 1 ≡ 1) ⊎ (10 ^ (count_digits 20 num 1 - 1) ≤ num))
      × (count_digits 20 num 1 ≤ 19)
count_digits-exact num small =
    let (extra, e, upper, lower) = count_from 20 num 1 small (omega arith) in
    let le : extra ≤ 18 = below_19 num extra small lower in
    let s : 1 + extra ≡ suc extra = omega arith in
    let d : suc extra - 1 ≡ extra = omega arith in
    rw (e, s, d) (upper, elim lower [ inl z ↦ inl (omega arith) | inr l ↦ inr l ], omega arith)
