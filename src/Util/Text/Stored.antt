-- ===== src/Util/Text/Stored.antt =====
-- `strlen`, `strcmp` and `strcpy` on strings that memory holds.
use boom_stop.Base.{
  ℕ, ◌+◌, ◌-◌, ◌^◌, ◌≤◌, ◌<◌, zero, suc, ◌≡◌, refl, ◌∙◌, ◌⊎◌, inl, inr, true, false, ◌&&◌, List, [],
  ◌∷◌, length, update, fill, ap, ltb, leb, u64, sub64, neg, ◌==◌, if◌then◌else◌, arith, Bool-cases,
  fun_ext,
}
use native.Mathlib.Nat.{add-zero}
use boom_stop.Base.Cmd.{ok, Returns, returns}
use boom_stop.Util.{Mem}
use boom_stop.Util.Text.{scan, strlen, strcmp, copy_string, strcpy}

-- The bytes `xs` stand at `s`, none of them zero, and a zero behind them.
abbrev pub Stored : Mem → ℕ → List ℕ → Type 0
Stored m s [] = m s ≡ 0
Stored m s (x ∷ xs) = (m s ≡ x) × (0 < x) × (x < 256) × Stored m (s + 1) xs

-- The first difference of two strings, 0 past their ends.
abbrev pub compare_bytes : List ℕ → List ℕ → ℕ
compare_bytes [] [] = 0
compare_bytes [] (y ∷ ys) = neg y
compare_bytes (x ∷ xs) [] = x
compare_bytes (x ∷ xs) (y ∷ ys) = if x == y then compare_bytes xs ys else sub64 x y

scan-Stored :
    (m : Mem) (xs : List ℕ) (fuel s : ℕ)
    → length xs < fuel
    → s + length xs < 2 ^ 64
    → Stored m s xs
    → scan fuel s m ≡ ok (s + length xs) m
unfolding scan
scan-Stored m xs zero s enough fits st = absurd (omega arith)
scan-Stored m [] (suc fuel) s enough fits st =
    let t : (m s == 0) ≡ true = ground arith in let e : s + 0 ≡ s = omega arith in rw (t, e) refl
scan-Stored m (x ∷ xs) (suc fuel) s enough fits (here, pos, small, st) =
    let f : (m s == 0) ≡ false = ground arith in
    let n : u64 (s + 1) ≡ s + 1 = omega arith in
    let e : s + suc (length xs) ≡ s + 1 + length xs = omega arith in
    rw (f, n, e) (scan-Stored m xs fuel (s + 1) (omega arith) (omega arith) st)

-- For a string in memory that does not pass the end of the address space, `strlen` stops after as
-- many rounds as the string has bytes and one, returns that number of bytes and changes nothing.
pub strlen-Stored :
    (m : Mem) (xs : List ℕ) (fuel s : ℕ)
    → length xs < fuel
    → s + length xs < 2 ^ 64
    → Stored m s xs
    → strlen fuel s m ≡ ok (length xs) m
unfolding strlen
strlen-Stored m xs fuel s enough fits st =
    let e : sub64 (s + length xs) s ≡ length xs = omega arith in
    rw (scan-Stored m xs fuel s enough fits st, e) refl

-- For two strings in memory that do not pass the end of the address space, `strcmp` stops after as
-- many rounds as the first has bytes and one, returns the first difference of their bytes, and 0 if
-- there is none, and changes nothing.
pub strcmp-Stored :
    (m : Mem) (xs ys : List ℕ) (fuel s1 s2 : ℕ)
    → length xs < fuel
    → s1 + length xs < 2 ^ 64
    → s2 + length ys < 2 ^ 64
    → Stored m s1 xs
    → Stored m s2 ys
    → strcmp fuel s1 s2 m ≡ ok (compare_bytes xs ys) m
unfolding strcmp
strcmp-Stored m xs ys zero s1 s2 enough fits fits2 st1 st2 = absurd (omega arith)
strcmp-Stored m [] [] (suc fuel) s1 s2 enough fits fits2 st1 st2 = rw (st1, st2) refl
strcmp-Stored m [] (y ∷ ys) (suc fuel) s1 s2 enough fits fits2 st1 (here, pos, small, st2) =
    let e : sub64 0 y ≡ neg y = omega arith in rw (st1, here, e) refl
strcmp-Stored m (x ∷ xs) [] (suc fuel) s1 s2 enough fits fits2 (here, pos, small, st1) st2 =
    let f : (x == 0) ≡ false = ground arith in
    let e : sub64 x 0 ≡ x = omega arith in rw (here, st2, f, e) refl
strcmp-Stored m (x ∷ xs) (y ∷ ys) (suc fuel) s1 s2 enough fits fits2 (h1, p1, l1, st1)
      (h2, p2, l2, st2) =
    let f : (x == 0) ≡ false = ground arith in
    let n1 : u64 (s1 + 1) ≡ s1 + 1 = omega arith in
    let n2 : u64 (s2 + 1) ≡ s2 + 1 = omega arith in
    let ih =
      strcmp-Stored m xs ys fuel (s1 + 1) (s2 + 1) (omega arith) (omega arith) (omega arith) st1
        st2 in
    elim (Bool-cases (x == y)) [
      | inl t ↦ rw (h1, h2, f, t, n1, n2) ih
      | inr d ↦ rw (h1, h2, f, d) refl
    ]

Stored-moved :
    (m m' : Mem) (xs : List ℕ) (d s : ℕ)
    → ((i : ℕ) → i ≤ length xs → m' (d + i) ≡ m (s + i))
    → Stored m s xs
    → Stored m' d xs
Stored-moved m m' [] d s same st =
    let e : m' d ≡ m s = simp add-zero at (same 0 (omega arith)) in e ∙ st
Stored-moved m m' (x ∷ xs) d s same (here, pos, small, st) =
    let e : m' d ≡ m s = simp add-zero at (same 0 (omega arith)) in
    let later : (i : ℕ) → i ≤ length xs → m' (d + 1 + i) ≡ m (s + 1 + i) = λ i le.
      let a : d + 1 + i ≡ d + (i + 1) = omega arith in
      let b : s + 1 + i ≡ s + (i + 1) = omega arith in rw (a, b) (same (i + 1) (omega arith)) in
    (e ∙ here, pos, small, Stored-moved m m' xs (d + 1) (s + 1) later st)

-- No byte of the `len` at `src` is one of the `len` at `dest`.
abbrev pub Disjoint : (dest src len : ℕ) → Type 0
Disjoint dest src len = (dest + len ≤ src) ⊎ (src + len ≤ dest)

-- The first byte and then the others are all of them.
fill_first :
    (m : Mem) (d s len : ℕ)
    → Disjoint d s (len + 1)
    → (a : ℕ)
    → fill (update m d (m s)) (d + 1) len (λ i. update m d (m s) (s + 1 + i)) a
      ≡ fill m d (len + 1) (λ i. m (s + i)) a
fill_first m d s len apart a = elim (Bool-cases (leb (d + 1) a && ltb a (d + 1 + len))) [
  | inl t ↦
      let j : s + 1 + (a - (d + 1)) ≡ s + (a - d) = ground arith in
      let other : (d == s + (a - d)) ≡ false = elim apart [
        | inl l ↦ ground arith
        | inr l ↦ ground arith
      ] in
      let inside : (leb d a && ltb a (d + (len + 1))) ≡ true = ground arith in
      rw (t, inside, j, other) refl
  | inr f ↦ elim (Bool-cases (d == a)) [
    | inl q ↦
        let r : d ≡ a = ground arith in
        let z : s + (a - d) ≡ s = omega arith in
        let inside : (leb d a && ltb a (d + (len + 1))) ≡ true = ground arith in
        rw (f, inside, q, z) refl
    | inr n ↦
        let outside : (leb d a && ltb a (d + (len + 1))) ≡ false = ground arith in
        rw (f, outside, n) refl
  ]
]

copy_string-Stored :
    (m : Mem) (xs : List ℕ) (fuel d s : ℕ)
    → length xs < fuel
    → d + length xs < 2 ^ 64
    → s + length xs < 2 ^ 64
    → Disjoint d s (length xs + 1)
    → Stored m s xs
    → copy_string fuel d s m ≡ ok tt (fill m d (length xs + 1) (λ i. m (s + i)))
unfolding copy_string
copy_string-Stored m xs zero d s enough d_fits s_fits apart st = absurd (omega arith)
copy_string-Stored m [] (suc fuel) d s enough d_fits s_fits apart st =
    let t : (m s == 0) ≡ true = ground arith in
    rw t (
      ap (ok tt) (
        fun_ext λ a. elim (Bool-cases (d == a)) [
          | inl q ↦ let z : s + (a - d) ≡ s = ground arith in ground (arith, ap m z)
          | inr q ↦ ground arith
        ]))
copy_string-Stored m (x ∷ xs) (suc fuel) d s enough d_fits s_fits apart (here, pos, small, st) =
    let f : (m s == 0) ≡ false = ground arith in
    let n : u64 (s + 1) ≡ s + 1 = omega arith in
    let n2 : u64 (d + 1) ≡ d + 1 = omega arith in
    let next : Disjoint (d + 1) (s + 1) (length xs + 1) = elim apart [
      | inl l ↦ inl (omega arith)
      | inr l ↦ inr (omega arith)
    ] in
    let kept =
      Stored-moved m (update m d (m s)) xs (s + 1) (s + 1)
        (λ i le. elim apart [ inl l ↦ ground arith | inr l ↦ ground arith ]) st in
    let ih =
      copy_string-Stored (update m d (m s)) xs fuel (d + 1) (s + 1) (omega arith) (omega arith)
        (omega arith) next kept in
    let same : suc (length xs) + 1 ≡ length xs + 1 + 1 = omega arith in
    rw (f, n, n2, same)
      (ih
        ∙ ap (ok tt) (
            fun_ext (
              fill_first m d s (length xs + 1)
                (elim apart [ inl l ↦ inl (omega arith) | inr l ↦ inr (omega arith) ]))))

copied-Stored :
    (m : Mem) (xs : List ℕ) (d s : ℕ)
    → Disjoint d s (length xs + 1)
    → Stored m s xs
    → Stored (fill m d (length xs + 1) (λ i. m (s + i))) d xs
copied-Stored m xs d s apart st =
    Stored-moved m (fill m d (length xs + 1) (λ i. m (s + i))) xs d s
      (λ i le.
        let z : d + i - d ≡ i = omega arith in
        let t : (leb d (d + i) && ltb (d + i) (d + (length xs + 1))) ≡ true = ground arith in
        rw (t, z) refl)
      st

-- For a string in memory, and room for it and its zero at `dest` that does not overlap it and does
-- not pass the end of the address space, `strcpy` stops after as many rounds as the string has bytes
-- and one, returns `dest`, leaves the string at `dest` too, and changes no byte outside that room.
strcpy-Stored :
    (m : Mem) (xs : List ℕ) (fuel dest src : ℕ)
    → length xs < fuel
    → dest + length xs < 2 ^ 64
    → src + length xs < 2 ^ 64
    → Disjoint dest src (length xs + 1)
    → Stored m src xs
    → Returns
        (λ r m'.
          (r ≡ dest)
          × Stored m' dest xs
          × ((a : ℕ) → (a < dest) ⊎ (dest + length xs < a) → m' a ≡ m a))
        (strcpy fuel dest src m)
unfolding strcpy
strcpy-Stored m xs fuel dest src enough d_fits s_fits apart st =
    rw (copy_string-Stored m xs fuel dest src enough d_fits s_fits apart st) (
      returns (
        refl,
        copied-Stored m xs dest src apart st,
        λ a h. elim h [ inl l ↦ ground arith | inr l ↦ ground arith ],
      ))
