-- ===== src/Base/Table.antt =====
-- A C array as a function of the index, a write to it, and the search for the first index that
-- passes a test, which several loops of the kernel are.
use Prim.Native.Nat.{ℕ, zero, suc, ◌+◌, ◌-◌, ◌≤◌, ◌<◌}
use mathlib.Core.Path.{◌≡◌}
use mathlib.Core.Logic.{inl, inr}
use mathlib.Core.Bool.{Bool, true, false, ◌&&◌}
use mathlib.Core.Option.{Option, none, some}
use native.Mathlib.Omega.{arith}
use boom_stop.Base.Tests.{◌==◌, ltb, leb, if◌then◌else◌, Bool-cases}

abbrev pub update {ℓ} : {A : Type ℓ} → (ℕ → A) → ℕ → A → ℕ → A
update f i v j = if i == j then v else f j

-- `f` with the value of `g i` at each of the `n` indices `start + i`.
abbrev pub fill : (ℕ → ℕ) → ℕ → ℕ → (ℕ → ℕ) → ℕ → ℕ
fill f start n g a = if leb start a && ltb a (start + n) then g (a - start) else f a

-- The first of the `left` indices from `i` on that passes the test.
unfoldable pub find_from : (ℕ → Bool) → ℕ → ℕ → Option ℕ
find_from p zero i = none
find_from p (suc left) i = let rest = find_from p left (i + 1) in if p i then some i else rest

pub record Found (p : ℕ → Bool) (lo hi i : ℕ) : Type 0 where
  pub above : lo ≤ i
  pub below : i < hi
  pub passes : p i ≡ true
  pub first : (j : ℕ) → lo ≤ j → j < i → p j ≡ false

Found-later : (p : ℕ → Bool) (lo hi i : ℕ) → p lo ≡ false → Found p (lo + 1) hi i → Found p lo hi i
Found-later p lo hi i no_first f = record {
  above = omega (arith, f.above);
  below = f.below;
  passes = f.passes;
  first = λ j l h. elim (Bool-cases (lo == j)) [
    | inl e ↦ let q : lo ≡ j = ground arith in rw (← q) no_first
    | inr n ↦ f.first j (ground arith) h
  ];
}

pub find_from-Found :
    (p : ℕ → Bool) (left i hi k : ℕ) → i + left ≡ hi → find_from p left i ≡ some k → Found p i hi k
unfolding find_from
find_from-Found p zero i hi k e h = cc
find_from-Found p (suc left) i hi k e h = elim (Bool-cases (p i)) [
  | inl t ↦
      let q : i ≡ k = ground arith in
      rw (← q) (record {
        above = omega arith;
        below = omega arith;
        passes = t;
        first = λ j l m. absurd (omega arith);
      })
  | inr f ↦ Found-later p i hi k f (find_from-Found p left (i + 1) hi k (omega arith) (rw f at h))
]

pub find_from-none :
    (p : ℕ → Bool) (left i hi j : ℕ)
    → i + left ≡ hi
    → find_from p left i ≡ none
    → i ≤ j
    → j < hi
    → p j ≡ false
unfolding find_from
find_from-none p zero i hi j e h l m = absurd (omega arith)
find_from-none p (suc left) i hi j e h l m = elim (Bool-cases (p i)) [
  | inl t ↦ absurd (ground arith)
  | inr f ↦ elim (Bool-cases (i == j)) [
    | inl q ↦ let r : i ≡ j = ground arith in rw (← r) f
    | inr n ↦ find_from-none p left (i + 1) hi j (omega arith) (rw f at h) (ground arith) m
  ]
]

-- The test holds at every number below `n`.
unfoldable pub all_below : (ℕ → Bool) → ℕ → Bool
all_below p zero = true
all_below p (suc n) = p n && all_below p n

pub all_below_lem : (p : ℕ → Bool) (n i : ℕ) → all_below p n ≡ true → i < n → p i ≡ true
unfolding all_below
all_below_lem p zero i e h = absurd (omega arith)
all_below_lem p (suc n) i e h = elim (Bool-cases (n == i)) [
  | inl q ↦ let r : n ≡ i = ground arith in rw (← r) (ground arith)
  | inr q ↦ all_below_lem p n i (ground arith) (ground arith)
]
