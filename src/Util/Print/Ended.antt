-- ===== src/Util/Print/Ended.antt =====
-- What a byte of the format makes `vsnprintf` write.
pub mod Whole
use boom_stop.Base.{
  ℕ, zero, suc, ◌+◌, ◌-◌, ◌*◌, ◌/◌, ◌%◌, ◌^◌, ◌≤◌, ◌<◌, ◌≡◌, refl, sym, ◌∙◌, ap, Bool, true, false,
  not, ◌==◌, if◌then◌else◌, List, [], ◌∷◌, length, inl, inr, Bool-cases, arith, update, u64, sub64,
  is_neg, ltb, to_int,
}
use boom_stop.Base.Cmd.{
  ◌>>◌, ◌>>=◌, Cmd, ok, pure, modify, Returns, returns, Returns-and_then, Returns-mono,
}
use boom_stop.Util.{Mem}
use boom_stop.Util.Print.{
  Print, put, puts, put_hex, put_decimal, next_arg, next_number, end_format, format_char,
  print_loop, terminate, fresh, vsnprintf,
}
use boom_stop.Util.Print.Bounded.{
  Within, longer-Within, put-Within, puts-Within, put_hex-Within, put_decimal-Within,
}

module _ (out : Mem) (n : ℕ) where
  next_arg-Within :
      (args : List ℕ) (limit needed : ℕ) (p : Print)
      → p.args ≡ args
      → Within out n limit (suc needed) p
      → Returns (λ _ q. Within out n limit needed q) (next_arg p)
  unfolding next_arg
  next_arg-Within [] limit needed p e w = absurd (omega (arith, w.left, ap length e))
  next_arg-Within (a ∷ rest) limit needed p e w =
      rw (e, next_arg)
        (returns
          (record { short = w.short; above = w.above; left = omega (arith, w.left, ap length e) }))

  next_number-Within :
      (limit needed : ℕ) (p : Print)
      → Within out n limit (suc needed) p
      → Returns (λ _ q. Within out n limit needed q) (next_number p)
  unfolding next_number
  next_number-Within limit needed p w =
      Returns-and_then (next_arg-Within p.args limit needed p refl w) λ _ q v. returns v

  ended-Within :
      (limit needed : ℕ) (p : Print)
      → Within out n limit needed p
      → Within out n limit needed (end_format p)
  ended-Within limit needed p w = record { short = w.short; above = w.above; left = w.left }

  -- A number in base 16, with at most 16 digits.
  hex-Within :
      (limit needed : ℕ) (p : Print)
      → limit + 16 < 2 ^ 64
      → Within out n limit (suc needed) p
      → Returns
          (λ _ q. Within out n (limit + 16) needed q)
          ((next_number >>= λ num.
              modify (λ p. end_format (put_hex n num (if p.longarg then 16 else 8) p)))
            p)
  hex-Within limit needed p small w =
      Returns-and_then (next_number-Within limit needed p w) λ num q v. returns (
        ended-Within (limit + 16) needed (put_hex n num (if q.longarg then 16 else 8) q)
          (either_size q.longarg num q v))
    where
      either_size :
          (long : Bool) (num : ℕ) (q : Print)
          → Within out n limit needed q
          → Within out n (limit + 16) needed (put_hex n num (if long then 16 else 8) q)
      either_size true num q v = put_hex-Within out n num 16 limit needed q (omega arith) v
      either_size false num q v =
          longer-Within out n (limit + 8) (limit + 16) needed _ (omega arith)
            (put_hex-Within out n num 8 limit needed q (omega arith) v)

  -- No argument is needed.
  keep :
      {limit needed : ℕ} (p : Print)
      → Within out n limit (suc needed) p
      → Within out n limit needed p
  keep p w = record { short = w.short; above = w.above; left = omega (arith, w.left) }

  module _ (string : ℕ → List ℕ) (most : ℕ) (fits : (a : ℕ) → length (string a) ≤ most) where
    wide :
        {limit more needed : ℕ} {p : Print}
        → limit ≤ more
        → Within out n limit needed p
        → Within out n more needed p
    wide le w = longer-Within out n _ _ _ _ le w

    pub format_char-Within :
        (c limit needed : ℕ) (p : Print)
        → limit + 24 + most < 2 ^ 64
        → Within out n limit (suc needed) p
        → Returns (λ _ q. Within out n (limit + 24 + most) needed q) (format_char string n c p)
    unfolding format_char
    format_char-Within c limit needed p small w = elim (Bool-cases (c == 108)) [
      | inl e1 ↦ rw e1 (
          returns (
            wide (omega arith)
              (record { short = w.short; above = w.above; left = omega (arith, w.left) })))
      | inr n1 ↦ elim (Bool-cases (c == 112)) [
        | inl e2 ↦
            let first =
              put-Within out n 48 limit (suc needed) (record p { longarg = true }) (omega arith)
                (record { short = w.short; above = w.above; left = w.left }) in
            let second =
              put-Within out n 120 (limit + 1) (suc needed) (put n 48 (record p { longarg = true }))
                (omega arith) first in
            rw (n1, e2)
              (Returns-mono (hex-Within (limit + 1 + 1) needed _ (omega arith) second)
                λ _ q v. wide (omega arith) v)
        | inr n2 ↦ elim (Bool-cases (c == 120)) [
          | inl e3 ↦
              rw (n1, n2, e3)
                (Returns-mono (hex-Within limit needed p (omega arith) w)
                  λ _ q v. wide (omega arith) v)
          | inr n3 ↦ elim (Bool-cases (c == 100)) [
            | inl e4 ↦
                rw (n1, n2, n3, e4)
                  (Returns-and_then (next_number-Within limit needed p w) λ num q v. returns (
                    wide (omega arith) (
                      ended-Within (limit + 24) needed (put_decimal n num q)
                        (put_decimal-Within out n num limit needed q (omega arith) v))))
            | inr n4 ↦ elim (Bool-cases (c == 115)) [
              | inl e5 ↦
                  rw (n1, n2, n3, n4, e5)
                    (Returns-and_then (next_arg-Within p.args limit needed p refl w) λ a q v.
                      returns (
                        wide (omega (arith, fits a)) (
                          ended-Within (limit + length (string a)) needed (puts n (string a) q) (
                            puts-Within out n (string a) limit needed q (omega (arith, fits a))
                              v))))
              | inr n5 ↦ elim (Bool-cases (c == 99)) [
                | inl e6 ↦ elim (Bool-cases (ltb (u64 (p.pos + 1)) n)) [
                  | inl room ↦
                      rw (n1, n2, n3, n4, n5, e6, room)
                        (Returns-and_then (next_arg-Within p.args limit needed p refl w) λ a q v.
                          returns (
                            wide (omega arith) (
                              ended-Within (limit + 1) needed (put n (a % 256) q)
                                (put-Within out n (a % 256) limit needed q (omega arith) v))))
                  | inr full ↦
                      rw (n1, n2, n3, n4, n5, e6, full)
                        (returns (
                          wide (omega arith) (
                            ended-Within (limit + 1) needed (put n 0 p)
                              (put-Within out n 0 limit needed p (omega arith) (keep p w)))))
                ]
                | inr n6 ↦ rw (n1, n2, n3, n4, n5, n6) (returns (wide (omega arith) (keep p w)))
              ]
            ]
          ]
        ]
      ]
    ]
