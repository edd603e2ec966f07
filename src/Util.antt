-- ===== src/Util.antt =====
-- util/string.c, on a memory of bytes by address.
pub mod Copy
pub mod Fill
pub mod Text
pub mod Print
mod Tests
use boom_stop.Base.{
  ℕ, ◌+◌, ◌-◌, ◌*◌, ◌/◌, ◌%◌, ◌^◌, zero, suc, Bool, bit_and, bit_or, fill, update, u64, sub64, ltb,
  ◌==◌, if◌then◌else◌,
}
use boom_stop.Base.Cmd.{Cmd, Run, ok, panic}

abbrev pub Mem : Type 0
Mem = ℕ → ℕ

-- The variables of `memcpy`.
pub record Copying : Type 0 where
  pub mem : Mem
  pub d : ℕ
  pub s : ℕ

-- One round: `w` bytes are read at `s` and then written at `d`.
abbrev pub copy_step : (w : ℕ) → Copying → Copying
copy_step w c = record {
  mem = fill c.mem c.d w (λ i. c.mem (c.s + i));
  d = u64 (c.d + w);
  s = u64 (c.s + w);
}

-- while (d < stop), of at most `fuel` rounds.
unfoldable pub copy_loop : (w fuel stop : ℕ) → Copying → Copying
copy_loop w zero stop c = c
copy_loop w (suc fuel) stop c =
    let rest = copy_loop w fuel stop (copy_step w c) in if ltb c.d stop then rest else c

abbrev pub both_aligned : ℕ → ℕ → Bool
both_aligned a b = bit_and (bit_or a b) 7 == 0

unfoldable pub memcpy : (dest src len : ℕ) → Cmd Mem ℕ
memcpy dest src len m =
    let start : Copying = record { mem = m; d = dest; s = src } in
    let words =
      if both_aligned dest src then copy_loop 8 len (sub64 (u64 (dest + len)) 7) start else start in
    ok dest (copy_loop 1 len (u64 (dest + len)) words).mem

-- The word with `byte` in each of its bytes.
abbrev pub spread : ℕ → ℕ
spread byte =
    let b = byte % 256 in
    let two = bit_or b (u64 (b * 2 ^ 8)) in
    let four = bit_or two (u64 (two * 2 ^ 16)) in bit_or four (u64 (u64 (four * 2 ^ 16) * 2 ^ 16))

abbrev pub byte_of_word : ℕ → ℕ → ℕ
byte_of_word w i = w / 256 ^ i % 256

-- while (d < stop), where each round writes `w` bytes.
unfoldable pub set_loop : (w : ℕ) → (ℕ → ℕ) → (fuel stop d : ℕ) → Mem → Mem
set_loop w g zero stop d m = m
set_loop w g (suc fuel) stop d m =
    let rest = set_loop w g fuel stop (u64 (d + w)) (fill m d w g) in if ltb d stop then rest else m

unfoldable pub memset : (dest byte len : ℕ) → Cmd Mem ℕ
memset dest byte len m =
    let stop = u64 (dest + len) in
    ok dest (
      if both_aligned dest len
      then set_loop 8 (byte_of_word (spread byte)) len stop dest m
      else set_loop 1 (λ _. byte % 256) len stop dest m)
