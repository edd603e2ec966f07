-- ===== src/Util/Print/Ended/Whole.antt =====
-- What `vsnprintf` leaves in the buffer.
use native.Mathlib.Nat.{suc-mul}
use boom_stop.Base.{
  ℕ, suc, ◌+◌, ◌-◌, ◌*◌, ◌^◌, ◌≤◌, ◌<◌, ◌≡◌, refl, ◌∙◌, ap, Bool, true, false, ◌==◌, if◌then◌else◌,
  List, [], ◌∷◌, length, inl, inr, Bool-cases, arith, ltb, to_int, ==_self,
}
use boom_stop.Base.Cmd.{
  Run, and_then, panic, ok, modify, Returns, returns, Returns-and_then, Returns-mono,
}
use boom_stop.Util.{Mem}
use boom_stop.Util.Print.{Print, put, format_char, print_loop, terminate, fresh, vsnprintf}
use boom_stop.Util.Print.Bounded.{Within, longer-Within, put-Within}
use boom_stop.Util.Print.Ended.{format_char-Within}

module _ (out : Mem) (n : ℕ) (string : ℕ → List ℕ) (most : ℕ)
    (fits : (a : ℕ) → length (string a) ≤ most) where
  one_char-Within :
      (c limit needed : ℕ) (p : Print)
      → limit + 24 + most < 2 ^ 64
      → Within out n limit (suc needed) p
      → Returns
          (λ _ q. Within out n (limit + 24 + most) needed q)
          ((if p.format
              then format_char string n c
              else if c == 37
              then modify (λ p. record p { format = true })
              else modify (put n c))
            p)
  one_char-Within c limit needed p small w = one p.format
    where
      kept :
          (q : Print)
          → q.pos ≡ p.pos
          → q.buf ≡ p.buf
          → q.args ≡ p.args
          → Within out n (limit + 24 + most) needed q
      kept q e1 e2 e3 = record {
        short = omega (arith, e1, w.short);
        above = λ a h. ap (λ b. b a) e2 ∙ w.above a h;
        left = omega (arith, w.left, ap length e3);
      }

      one :
          (format : Bool)
          → Returns
              (λ _ q. Within out n (limit + 24 + most) needed q)
              ((if format
                  then format_char string n c
                  else if c == 37
                  then modify (λ p. record p { format = true })
                  else modify (put n c))
                p)
      one true = format_char-Within out n string most fits c limit needed p small w
      one false = elim (Bool-cases (c == 37)) [
        | inl percent ↦ rw percent (returns (kept (record p { format = true }) refl refl refl))
        | inr plain ↦
            let v = put-Within out n c limit (suc needed) p (omega arith) w in
            rw plain (
              returns (record {
                short = omega (arith, v.short);
                above = v.above;
                left = omega (arith, v.left);
              }))
      ]

  print_loop-Within :
      (s : List ℕ) (limit : ℕ) (p : Print)
      → limit + length s * (24 + most) < 2 ^ 64
      → Within out n limit (length s) p
      → Returns (λ _ q. Within out n (limit + length s * (24 + most)) 0 q) (print_loop string n s p)
  unfolding print_loop
  print_loop-Within [] limit p small w = returns (longer-Within out n limit _ 0 p (omega arith) w)
  print_loop-Within (c ∷ s) limit p small w =
      let step : suc (length s) * (24 + most) ≡ length s * (24 + most) + (24 + most) =
        suc-mul (length s) (24 + most) in
      Returns-and_then (one_char-Within c limit (length s) p (omega (arith, step)) w) λ _ q v.
        Returns-mono (print_loop-Within s (limit + 24 + most) q (omega (arith, step)) v)
          λ _ k r. longer-Within out n _ _ 0 k (omega (arith, step)) r

  terminate-Ended :
      (limit : ℕ) (p : Print)
      → Within out n limit 0 p
      → ((a : ℕ) → n ≤ a → (terminate n p).buf a ≡ out a)
        × (1 ≤ n → (k : ℕ) × (k < n) × ((terminate n p).buf k ≡ 0))
  terminate-Ended limit p w = elim (Bool-cases (ltb p.pos n)) [
    | inl t ↦ rw t (
      λ a high. let apart : (p.pos == a) ≡ false = ground arith in rw apart (w.above a high),
      λ room. (p.pos, ground arith, rw (==_self p.pos) refl),
    )
    | inr f ↦ elim (Bool-cases (n == 0)) [
      | inl z ↦ rw (f, z) (w.above, λ room. absurd (ground arith))
      | inr some_room ↦
          rw (f, some_room)
            (
              λ a high.
                  let apart : (n - 1 == a) ≡ false = ground arith in rw apart (w.above a high),
              λ room. (n - 1, omega arith, rw (==_self (n - 1)) refl),
            )
    ]
  ]

  whole :
      {limit : ℕ} {r : Run Print (Unit {0})}
      → Returns (λ _ p. Within out n limit 0 p) r
      → Returns
          (λ _ after.
            ((a : ℕ) → n ≤ a → after a ≡ out a) × (1 ≤ n → (k : ℕ) × (k < n) × (after k ≡ 0)))
          (elim (and_then r (λ _. modify (terminate n))) [
            | ok _ p ↦ ok (to_int p.pos) p.buf
            | panic ↦ panic
          ])
  whole (returns w) = returns (terminate-Ended _ _ w)

  -- With an argument for each byte of the format, strings of a bounded length and so fewer than 2 ^
  -- 64 characters to print, vsnprintf returns, writes no byte at or behind n, and if n is not 0
  -- leaves a zero in front of n.
  pub vsnprintf-Bounded :
      (s args : List ℕ)
      → length s * (24 + most) < 2 ^ 64
      → length s ≤ length args
      → Returns
          (λ _ after.
            ((a : ℕ) → n ≤ a → after a ≡ out a) × (1 ≤ n → (k : ℕ) × (k < n) × (after k ≡ 0)))
          (vsnprintf string n s args out)
  unfolding vsnprintf
  vsnprintf-Bounded s args small enough = whole (
      print_loop-Within s 0 (fresh out args) (omega arith)
        (record { short = omega arith; above = λ a h. refl; left = enough }))
