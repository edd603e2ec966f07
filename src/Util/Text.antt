-- ===== src/Util/Text.antt =====
-- The functions on strings of util/string.c. A loop stops at a zero byte or a difference; it has
-- `fuel` rounds, and one that has not stopped by then is taken for one that never does.
pub mod Stored
pub mod Number
use boom_stop.Base.{
  ℕ, ◌+◌, ◌-◌, ◌*◌, ◌%◌, ◌^◌, zero, suc, Bool, true, false, not, ◌&&◌, ◌||◌, update, u64, sub64,
  neg, ◌==◌, if◌then◌else◌,
}
use boom_stop.Base.Cmd.{Cmd, Run, ok, panic, ◌>>=◌, pure}
use boom_stop.Util.{Mem}

-- while (*p) p++
unfoldable pub scan : (fuel p : ℕ) → Cmd Mem ℕ
scan zero p m = panic
scan (suc fuel) p m = let rest = scan fuel (u64 (p + 1)) m in if m p == 0 then ok p m else rest

unfoldable pub strlen : (fuel s : ℕ) → Cmd Mem ℕ
strlen fuel s = do p ← scan fuel s; pure (sub64 p s)

unfoldable pub strcmp : (fuel s1 s2 : ℕ) → Cmd Mem ℕ
strcmp zero s1 s2 m = panic
strcmp (suc fuel) s1 s2 m =
    let c1 = m s1 in
    let c2 = m s2 in
    let rest = strcmp fuel (u64 (s1 + 1)) (u64 (s2 + 1)) m in
    if not (c1 == 0) && c1 == c2 then rest else ok (sub64 c1 c2) m

-- while ((*d++ = *src++))
unfoldable pub copy_string : (fuel d s : ℕ) → Mem → Run Mem (Unit {0})
copy_string zero d s m = panic
copy_string (suc fuel) d s m =
    let m1 = update m d (m s) in
    let rest = copy_string fuel (u64 (d + 1)) (u64 (s + 1)) m1 in
    if m s == 0 then ok tt m1 else rest

unfoldable pub strcpy : (fuel dest src : ℕ) → Cmd Mem ℕ
strcpy fuel dest src = do _ ← copy_string fuel dest src; pure dest

-- while (*str == ' ') str++
unfoldable pub skip_spaces : (fuel str : ℕ) → Cmd Mem ℕ
skip_spaces zero str m = panic
skip_spaces (suc fuel) str m =
    let rest = skip_spaces fuel (u64 (str + 1)) m in if m str == 32 then rest else ok str m

-- while (*str) { res *= 10; res += *str++ - '0'; }
unfoldable pub read_digits : (fuel str res : ℕ) → Cmd Mem ℕ
read_digits zero str res m = panic
read_digits (suc fuel) str res m =
    let rest = read_digits fuel (u64 (str + 1)) (u64 (u64 (res * 10) + sub64 (m str) 48)) m in
    if m str == 0 then ok res m else rest

abbrev pub is_sign : ℕ → Bool
is_sign c = c == 45 || c == 43

unfoldable pub read_signed : (fuel str : ℕ) → Cmd Mem ℕ
read_signed fuel str m =
    let negative = m str == 45 in
    (do
      res ← read_digits fuel (if is_sign (m str) then u64 (str + 1) else str) 0
      pure (if negative then sub64 0 res else res))
      m

unfoldable pub atol : (fuel str : ℕ) → Cmd Mem ℕ
atol fuel str = do start ← skip_spaces fuel str; read_signed fuel start
