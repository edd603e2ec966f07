-- ===== src/Util/Text/Number.antt =====
-- `atol` on decimal numbers, with spaces and a sign before them.
use boom_stop.Base.{
  ℕ, ◌+◌, ◌*◌, ◌^◌, ◌<◌, zero, suc, ◌≡◌, refl, false, List, [], ◌∷◌, length, u64, sub64, ◌==◌, ◌≢◌,
  arith,
}
use boom_stop.Base.Cmd.{ok}
use boom_stop.Util.{Mem}
use boom_stop.Util.Text.{skip_spaces, read_digits, read_signed, is_sign, atol}
use boom_stop.Util.Text.Stored.{Stored}

-- The number that digits denote, behind one that was read before.
abbrev pub decimal : (before : ℕ) → List ℕ → ℕ
decimal before [] = before
decimal before (d ∷ ds) = decimal (before * 10 + d) ds

abbrev pub digit_chars : List ℕ → List ℕ
digit_chars [] = []
digit_chars (d ∷ ds) = (48 + d) ∷ digit_chars ds

abbrev pub AreDigits : List ℕ → Type 0
AreDigits [] = Unit
AreDigits (d ∷ ds) = (d < 10) × AreDigits ds

pub data Sign : Type 0 where
  unsigned plus minus : Sign

abbrev pub sign_chars : Sign → List ℕ → List ℕ
sign_chars unsigned xs = xs
sign_chars plus xs = 43 ∷ xs
sign_chars minus xs = 45 ∷ xs

abbrev pub spaces : ℕ → List ℕ → List ℕ
spaces zero xs = xs
spaces (suc n) xs = 32 ∷ spaces n xs

-- The `long` for a number and its sign, on 64 bits.
abbrev pub signed_value : Sign → ℕ → ℕ
signed_value unsigned n = u64 n
signed_value plus n = u64 n
signed_value minus n = sub64 0 (u64 n)

read_digits-Stored :
    (m : Mem) (ds : List ℕ) (fuel s before : ℕ)
    → length (digit_chars ds) < fuel
    → s + length (digit_chars ds) < 2 ^ 64
    → AreDigits ds
    → Stored m s (digit_chars ds)
    → read_digits fuel s (u64 before) m ≡ ok (u64 (decimal before ds)) m
unfolding read_digits
read_digits-Stored m ds zero s before enough fits digits st = absurd (omega arith)
read_digits-Stored m [] (suc fuel) s before enough fits digits st = rw st refl
read_digits-Stored m (d ∷ ds) (suc fuel) s before enough fits (small, digits)
      (here, pos, byte, st) =
    let f : (48 + d == 0) ≡ false = ground arith in
    let n : u64 (s + 1) ≡ s + 1 = omega arith in
    let v : u64 (u64 (u64 before * 10) + sub64 (48 + d) 48) ≡ u64 (before * 10 + d) = omega arith in
    let ih =
      read_digits-Stored m ds fuel (s + 1) (before * 10 + d) (omega arith) (omega arith) digits
        st in
    rw (here, f, n, v) ih

skip_spaces_lem :
    (m : Mem) (n : ℕ) (xs : List ℕ) (fuel s : ℕ)
    → n < fuel
    → s + n < 2 ^ 64
    → m (s + n) ≢ 32
    → Stored m s (spaces n xs)
    → skip_spaces fuel s m ≡ ok (s + n) m
unfolding skip_spaces
skip_spaces_lem m n xs zero s enough fits stop st = absurd (omega arith)
skip_spaces_lem m zero xs (suc fuel) s enough fits stop st =
    let z : s + 0 ≡ s = omega arith in
    let stop0 : m s ≢ 32 = rw z at stop in
    let f : (m s == 32) ≡ false = ground arith in rw (f, z) refl
skip_spaces_lem m (suc n) xs (suc fuel) s enough fits stop (here, pos, byte, st) =
    let next : u64 (s + 1) ≡ s + 1 = omega arith in
    let e : s + suc n ≡ s + 1 + n = omega arith in
    rw (here, next, e)
      (skip_spaces_lem m n xs fuel (s + 1) (omega arith) (omega arith) (rw e at stop) st)

Stored-spaces :
    (m : Mem) (n : ℕ) (xs : List ℕ) (s : ℕ) → Stored m s (spaces n xs) → Stored m (s + n) xs
Stored-spaces m zero xs s st = let z : s + 0 ≡ s = omega arith in rw z st
Stored-spaces m (suc n) xs s (here, pos, byte, st) =
    let e : s + suc n ≡ s + 1 + n = omega arith in rw e (Stored-spaces m n xs (s + 1) st)

not_space :
    (m : Mem) (sign : Sign) (ds : List ℕ) (s : ℕ)
    → AreDigits ds
    → Stored m s (sign_chars sign (digit_chars ds))
    → m s ≢ 32
not_space m unsigned [] s digits st = ground arith
not_space m unsigned (d ∷ ds) s digits (here, p, q, rest) = ground arith
not_space m plus ds s digits (here, p, q, rest) = ground arith
not_space m minus ds s digits (here, p, q, rest) = ground arith

first_lem :
    (m : Mem) (ds : List ℕ) (s : ℕ)
    → AreDigits ds
    → Stored m s (digit_chars ds)
    → (is_sign (m s) ≡ false) × ((m s == 45) ≡ false)
first_lem m [] s digits st = ground arith
first_lem m (d ∷ ds) s digits (here, p, q, rest) = ground arith

read_signed-Stored :
    (m : Mem) (sign : Sign) (ds : List ℕ) (fuel s : ℕ)
    → length (sign_chars sign (digit_chars ds)) < fuel
    → s + length (sign_chars sign (digit_chars ds)) < 2 ^ 64
    → AreDigits ds
    → Stored m s (sign_chars sign (digit_chars ds))
    → read_signed fuel s m ≡ ok (signed_value sign (decimal 0 ds)) m
unfolding read_signed
read_signed-Stored m unsigned ds fuel s enough fits digits st =
    let (a, b) = first_lem m ds s digits st in
    rw (a, b, read_digits-Stored m ds fuel s 0 enough fits digits st) refl
read_signed-Stored m plus ds fuel s enough fits digits (here, pos, byte, st) =
    let n : u64 (s + 1) ≡ s + 1 = omega arith in
    rw (here, n, read_digits-Stored m ds fuel (s + 1) 0 (omega arith) (omega arith) digits st) refl
read_signed-Stored m minus ds fuel s enough fits digits (here, pos, byte, st) =
    let n : u64 (s + 1) ≡ s + 1 = omega arith in
    rw (here, n, read_digits-Stored m ds fuel (s + 1) 0 (omega arith) (omega arith) digits st) refl

-- For a string in memory of spaces, an optional sign and decimal digits that does not pass the end
-- of the address space, `atol` stops after at most as many rounds of each loop as the string has
-- bytes and one, returns the number modulo 2 ^ 64 with its sign, and changes nothing.
pub atol-Stored :
    (m : Mem) (n : ℕ) (sign : Sign) (ds : List ℕ) (fuel s : ℕ)
    → n + length (sign_chars sign (digit_chars ds)) < fuel
    → s + n + length (sign_chars sign (digit_chars ds)) < 2 ^ 64
    → AreDigits ds
    → Stored m s (spaces n (sign_chars sign (digit_chars ds)))
    → atol fuel s m ≡ ok (signed_value sign (decimal 0 ds)) m
unfolding atol
atol-Stored m n sign ds fuel s enough fits digits st =
    let there = Stored-spaces m n (sign_chars sign (digit_chars ds)) s st in
    rw
      (skip_spaces_lem m n (sign_chars sign (digit_chars ds)) fuel s (omega arith) (omega arith)
        (not_space m sign ds (s + n) digits there) st)
      (read_signed-Stored m sign ds fuel (s + n) (omega arith) (omega arith) digits there)
