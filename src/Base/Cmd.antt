-- ===== src/Base/Cmd.antt =====
-- Kernel code over a state `S`: it returns a value and a new state, or panics. `panic`, a failed
-- `kassert` and `shutdown` all end the machine, and none of them returns.
use mathlib.Core.Bool.{Bool, true, false}

pub data Run (S A : Type 0) : Type 0 where
  ok : A → S → Run S A
  panic : Run S A

abbrev pub Cmd : Type 0 → Type 0 → Type 0
Cmd S A = S → Run S A

module _ {S A : Type 0} where
  abbrev pub pure : A → Cmd S A
  pure = ok

  abbrev pub halt : Cmd S A
  halt s = panic

module _ {S A B : Type 0} where
  abbrev pub and_then : Run S A → (A → Cmd S B) → Run S B
  and_then (ok a s) k = k a s
  and_then panic k = panic

  infixl 5 ◌>>=◌ ◌>>◌
  abbrev pub ◌>>=◌ : Cmd S A → (A → Cmd S B) → Cmd S B
  m >>= k = λ s. and_then (m s) k

  abbrev pub ◌>>◌ : Cmd S A → Cmd S B → Cmd S B
  m >> n = m >>= λ _. n

module _ {S : Type 0} where
  abbrev pub kassert : Bool → Cmd S (Unit {0})
  kassert true s = ok tt s
  kassert false s = panic

  abbrev pub modify : (S → S) → Cmd S (Unit {0})
  modify f s = ok tt (f s)

  -- The call returns, with a result and a state that satisfy `P`.
  pub data Returns {A : Type 0} (P : A → S → Type 0) : Run S A → Type 0 where
    returns : {a : A} {s : S} → P a s → Returns P (ok a s)

-- A sequence of calls that return, each on what the one before it is known to leave.
pub Returns-and_then :
    {S A B : Type 0} {P : A → S → Type 0} {Q : B → S → Type 0} {r : Run S A} {k : A → Cmd S B}
    → Returns P r
    → ((a : A) (s : S) → P a s → Returns Q (k a s))
    → Returns Q (and_then r k)
Returns-and_then (returns p) next = next _ _ p

pub Returns-mono :
    {S A : Type 0} {P Q : A → S → Type 0} {r : Run S A}
    → Returns P r
    → ((a : A) (s : S) → P a s → Q a s)
    → Returns Q r
Returns-mono (returns p) weaken = returns (weaken _ _ p)

-- If the call returns, its result and state satisfy `P`: for code that may panic.
abbrev pub Ensures : {S A : Type 0} → (A → S → Type 0) → Run S A → Type 0
Ensures P (ok a s) = P a s
Ensures P panic = Unit

pub Returns-Ensures : {S A : Type 0} {P : A → S → Type 0} {r : Run S A} → Returns P r → Ensures P r
Returns-Ensures (returns p) = p

-- Two facts of one call that returns.
pub Returns-both :
    {S A : Type 0} {P Q : A → S → Type 0} {r : Run S A}
    → Returns P r
    → Returns Q r
    → Returns (λ a s. P a s × Q a s) r
Returns-both (returns p) (returns q) = returns (p, q)
