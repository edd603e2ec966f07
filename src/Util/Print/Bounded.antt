-- ===== src/Util/Print/Bounded.antt =====
-- Where `vsnprintf` writes.
use boom_stop.Base.{
  ℕ, zero, suc, ◌+◌, ◌*◌, ◌/◌, ◌%◌, ◌^◌, ◌≤◌, ◌<◌, ◌≡◌, false, ◌==◌, if◌then◌else◌, List, [], ◌∷◌,
  length, inl, inr, Bool-cases, arith, u64, sub64, is_neg, ltb,
}
use boom_stop.Util.{Mem}
use boom_stop.Util.Print.{
  Print, put, puts, put_hex, put_digits, put_decimal, count_digits, tenth, hex_char,
}

-- At most `limit` characters, of which those below `n` at most are in the buffer `out`, and `needed` arguments
-- or more are left.
pub record Within (out : Mem) (n limit needed : ℕ) (p : Print) : Type 0 where
  pub short : p.pos ≤ limit
  pub above : (a : ℕ) → n ≤ a → p.buf a ≡ out a
  pub left : needed ≤ length p.args

count_digits-le : (fuel nn digits : ℕ) → count_digits fuel nn digits ≤ digits + fuel
unfolding count_digits
count_digits-le zero nn digits = omega arith
count_digits-le (suc fuel) nn digits = elim (Bool-cases (tenth nn == 0)) [
  | inl t ↦ rw t (omega arith)
  | inr f ↦ rw f (omega (arith, count_digits-le fuel (tenth nn) (digits + 1)))
]

module _ (out : Mem) (n : ℕ) where
  pub longer-Within :
      (limit more needed : ℕ) (p : Print)
      → limit ≤ more
      → Within out n limit needed p
      → Within out n more needed p
  longer-Within limit more needed p le w = record {
    short = omega (arith, le, w.short);
    above = w.above;
    left = w.left;
  }

  pub put-Within :
      (c limit needed : ℕ) (p : Print)
      → limit + 1 < 2 ^ 64
      → Within out n limit needed p
      → Within out n (limit + 1) needed (put n c p)
  unfolding put
  put-Within c limit needed p small w =
      let one : u64 (p.pos + 1) ≡ p.pos + 1 = omega (arith, w.short) in
      let place : sub64 (p.pos + 1) 1 ≡ p.pos = omega (arith, w.short) in
      record {
        short = rw one (omega (arith, w.short));
        above = λ a high. elim (Bool-cases (ltb (p.pos + 1) n)) [
          | inl t ↦
              let apart : (p.pos == a) ≡ false = ground arith in
              rw (one, t, place, apart) (w.above a high)
          | inr f ↦ rw (one, f) (w.above a high)
        ];
        left = w.left;
      }

  pub puts-Within :
      (cs : List ℕ) (limit needed : ℕ) (p : Print)
      → limit + length cs < 2 ^ 64
      → Within out n limit needed p
      → Within out n (limit + length cs) needed (puts n cs p)
  unfolding puts
  puts-Within [] limit needed p small w = record {
    short = omega (arith, w.short);
    above = w.above;
    left = w.left;
  }
  puts-Within (c ∷ cs) limit needed p small w = longer-Within _ _ needed _ (omega arith) (
      puts-Within cs (limit + 1) needed (put n c p) (omega arith)
        (put-Within c limit needed p (omega arith) w))

  pub put_hex-Within :
      (num digits limit needed : ℕ) (p : Print)
      → limit + digits < 2 ^ 64
      → Within out n limit needed p
      → Within out n (limit + digits) needed (put_hex n num digits p)
  unfolding put_hex
  put_hex-Within num zero limit needed p small w = longer-Within _ _ needed p (omega arith) w
  put_hex-Within num (suc i) limit needed p small w =
      longer-Within (limit + 1 + i) _ needed _ (omega arith) (
        put_hex-Within num i (limit + 1) needed _ (omega arith)
          (put-Within (hex_char (num / 2 ^ (4 * i) % 16)) limit needed p (omega arith) w))

  put_digits-Within :
      (num digits limit needed : ℕ) (p : Print)
      → Within out n limit needed p
      → Within out n limit needed (put_digits n num digits p)
  unfolding put_digits
  put_digits-Within num zero limit needed p w = w
  put_digits-Within num (suc i) limit needed p w =
      put_digits-Within (tenth num) i limit needed _ (elim (Bool-cases (ltb (p.pos + i + 1) n)) [
        | inl t ↦ rw t (record {
          short = w.short;
          above = λ a high.
              let apart : (p.pos + i == a) ≡ false = ground arith in rw apart (w.above a high);
          left = w.left;
        })
        | inr f ↦ rw f w
      ])

  pub put_decimal-Within :
      (num limit needed : ℕ) (p : Print)
      → limit + 24 < 2 ^ 64
      → Within out n limit needed p
      → Within out n (limit + 24) needed (put_decimal n num p)
  unfolding put_decimal
  put_decimal-Within num limit needed p small w =
      let size = if is_neg num then sub64 0 num else num in
      let digits = count_digits 20 size 1 in
      let few : digits ≤ 21 = count_digits-le 20 size 1 in
      let signed = if is_neg num then put n 45 p else p in
      let sign : Within out n (limit + 1) needed signed = elim (Bool-cases (is_neg num)) [
        | inl t ↦ rw t (put-Within 45 limit needed p (omega arith) w)
        | inr f ↦ rw f (longer-Within limit (limit + 1) needed p (omega arith) w)
      ] in
      let written = put_digits-Within size digits (limit + 1) needed signed sign in
      record {
        short = omega (arith, few, written.short);
        above = written.above;
        left = written.left;
      }
