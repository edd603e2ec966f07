-- ===== src/Machine/Fdt/Names.antt =====
-- The names in machine/fdt.c are compared by the `strcmp` of util/string.c.
use boom_stop.Base.{
  ℕ, ◌+◌, ◌^◌, ◌<◌, ◌≡◌, refl, List, [], ◌∷◌, length, arith, ◌==◌, inl, inr, Bool-cases,
}
use boom_stop.Base.Cmd.{Returns, returns}
use boom_stop.Util.{Mem}
use boom_stop.Util.Text.{strcmp}
use boom_stop.Util.Text.Stored.{Stored, compare_bytes, strcmp-Stored}
use boom_stop.Machine.Fdt.{is_text}

is_text-compare_bytes :
    (m : Mem) (p q : ℕ) (ys xs : List ℕ)
    → Stored m p ys
    → Stored m q xs
    → is_text m p xs ≡ (compare_bytes ys xs == 0)
is_text-compare_bytes m p q [] [] e f = rw e refl
is_text-compare_bytes m p q [] (x ∷ xs) e (f, pos, small, more) = ground arith
is_text-compare_bytes m p q (y ∷ ys) [] (e, pos, small, more) f = ground arith
is_text-compare_bytes m p q (y ∷ ys) (x ∷ xs) (e, pos, small, more) (f, pos2, small2, more2) =
    elim (Bool-cases (y == x)) [
      | inl t ↦ rw (e, t) (is_text-compare_bytes m (p + 1) (q + 1) ys xs more more2)
      | inr t ↦ rw (e, t) (ground arith)
    ]

-- For a name in memory and a text that stands in memory too, both before the end of the address
-- space, the test for the text holds exactly if `strcmp` of the two, which stops, returns 0.
is_text-strcmp :
    (m : Mem) (p q fuel : ℕ) (ys xs : List ℕ)
    → Stored m p ys
    → Stored m q xs
    → length ys < fuel
    → p + length ys < 2 ^ 64
    → q + length xs < 2 ^ 64
    → Returns (λ r m'. (is_text m p xs ≡ (r == 0)) × (m' ≡ m)) (strcmp fuel p q m)
is_text-strcmp m p q fuel ys xs stored text enough small small2 =
    rw (strcmp-Stored m ys xs fuel p q enough small small2 stored text)
      (returns (is_text-compare_bytes m p q ys xs stored text, refl))
