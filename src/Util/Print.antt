-- ===== src/Util/Print.antt =====
-- util/snprintf.c: `vsnprintf`. The format is the bytes up to its zero; the arguments are words, and
-- a missing one is a panic; `string` gives the bytes of the string at an address. Positions are those
-- in `out`. Of a negative number `/` and `%` round to zero, as C has it, which matters for the one
-- `long` whose negation is itself.
pub mod Bounded
pub mod Ended
pub mod Digits
use boom_stop.Base.{
  ℕ, zero, suc, ◌+◌, ◌-◌, ◌*◌, ◌/◌, ◌%◌, ◌^◌, Bool, true, false, List, [], ◌∷◌, update, u64, sub64,
  to_int, is_neg, neg, ltb, ◌==◌, if◌then◌else◌,
}
use boom_stop.Base.Cmd.{Cmd, Run, ok, panic, halt, pure, ◌>>=◌, ◌>>◌, modify}
use boom_stop.Util.{Mem}

pub record Print : Type 0 where
  pub buf : Mem
  pub pos : ℕ
  pub format : Bool
  pub longarg : Bool
  pub args : List ℕ

-- if (++pos < n) out[pos-1] = c
unfoldable pub put : (n c : ℕ) → Print → Print
put n c p =
    let pos = u64 (p.pos + 1) in
    record p { pos = pos; buf = if ltb pos n then update p.buf (sub64 pos 1) c else p.buf }

unfoldable pub puts : (n : ℕ) → List ℕ → Print → Print
puts n [] p = p
puts n (c ∷ cs) p = puts n cs (put n c p)

abbrev pub end_format : Print → Print
end_format p = record p { format = false; longarg = false }

-- The next argument.
unfoldable pub next_arg : Cmd Print ℕ
next_arg p = elim p.args [ [] ↦ panic | w ∷ ws ↦ ok w (record p { args = ws }) ]

-- longarg ? va_arg(vl, long) : va_arg(vl, int)
unfoldable pub next_number : Cmd Print ℕ
next_number = do w ← next_arg; λ p. ok (if p.longarg then w else to_int w) p

abbrev pub hex_char : ℕ → ℕ
hex_char d = if ltb d 10 then 48 + d else 97 + d - 10

-- The `digits` low digits of base 16, highest first.
unfoldable pub put_hex : (n num digits : ℕ) → Print → Print
put_hex n num zero p = p
put_hex n num (suc i) p = put_hex n num i (put n (hex_char (num / 2 ^ (4 * i) % 16)) p)

-- num / 10 and num % 10 on `long`s; a negative remainder has its size here.
abbrev pub tenth : ℕ → ℕ
tenth num = if is_neg num then neg ((2 ^ 64 - num) / 10) % 2 ^ 64 else num / 10

abbrev pub last_char : ℕ → ℕ
last_char num = if is_neg num then 48 - (2 ^ 64 - num) % 10 else 48 + num % 10

-- for (long nn = num; nn /= 10; digits++), of at most `fuel` rounds; the caller gives 20, as a
-- `long` has at most 19 digits.
unfoldable pub count_digits : (fuel nn digits : ℕ) → ℕ
count_digits zero nn digits = digits
count_digits (suc fuel) nn digits =
    let rest = count_digits fuel (tenth nn) (digits + 1) in if tenth nn == 0 then digits else rest

-- for (int i = digits-1; i >= 0; i--)
unfoldable pub put_digits : (n num digits : ℕ) → Print → Print
put_digits n num zero p = p
put_digits n num (suc i) p = put_digits n (tenth num) i (
    if ltb (p.pos + i + 1) n
    then record p { buf = update p.buf (p.pos + i) (last_char num) }
    else p)

unfoldable pub put_decimal : (n num : ℕ) → Print → Print
put_decimal n num p =
    let size = if is_neg num then sub64 0 num else num in
    let signed = if is_neg num then put n 45 p else p in
    let digits = count_digits 20 size 1 in
    let written = put_digits n size digits signed in
    record written { pos = u64 (written.pos + digits) }

-- The byte behind a `%`: 'l', 'p', 'x', 'd', 's', 'c', or one that is passed over.
unfoldable pub format_char : (string : ℕ → List ℕ) (n c : ℕ) → Cmd Print (Unit {0})
format_char string n c =
    if c == 108
    then modify (λ p. record p { longarg = true })
    else if c == 112
    then (do
      modify (λ p. put n 120 (put n 48 (record p { longarg = true })))
      num ← next_number
      modify (λ p. end_format (put_hex n num (if p.longarg then 16 else 8) p)))
    else if c == 120
    then (do
      num ← next_number
      modify (λ p. end_format (put_hex n num (if p.longarg then 16 else 8) p)))
    else if c == 100
    then (do num ← next_number; modify (λ p. end_format (put_decimal n num p)))
    else if c == 115
    then (do a ← next_arg; modify (λ p. end_format (puts n (string a) p)))
    else if c == 99
    then format_c n
    else pure tt
  where
    -- The argument is taken only if there is room for it.
    format_c : ℕ → Cmd Print (Unit {0})
    format_c n p =
        if ltb (u64 (p.pos + 1)) n
        then (do w ← next_arg; modify (λ p. end_format (put n (w % 256) p))) p
        else ok tt (end_format (put n 0 p))

unfoldable pub print_loop : (string : ℕ → List ℕ) (n : ℕ) → List ℕ → Cmd Print (Unit {0})
print_loop string n [] = pure tt
print_loop string n (c ∷ s) = do
  λ p.
      (if p.format
          then format_char string n c
          else if c == 37
          then modify (λ p. record p { format = true })
          else modify (put n c))
        p
  print_loop string n s

abbrev pub terminate : ℕ → Print → Print
terminate n p =
    if ltb p.pos n
    then record p { buf = update p.buf p.pos 0 }
    else if n == 0
    then p
    else record p { buf = update p.buf (n - 1) 0 }

abbrev pub fresh : Mem → List ℕ → Print
fresh out args = record { buf = out; pos = 0; format = false; longarg = false; args = args }

-- The result is the `int` of the position.
unfoldable pub vsnprintf : (string : ℕ → List ℕ) (n : ℕ) (s args : List ℕ) → Cmd Mem ℕ
vsnprintf string n s args out =
    elim ((do print_loop string n s; modify (terminate n)) (fresh out args)) [
      | ok _ p ↦ ok (to_int p.pos) p.buf
      | panic ↦ panic
    ]
