-- ===== src/Util/Fill.antt =====
-- What `memset` leaves in memory.
use boom_stop.Base.{
  all_below, all_below_lem, ℕ, ◌+◌, ◌-◌, ◌*◌, ◌/◌, ◌%◌, ◌^◌, ◌≤◌, ◌<◌, zero, suc, Bool, true, false,
  ◌≡◌, refl, inl, inr, fill, ltb, leb, ◌==◌, ◌&&◌, u64, arith, Bool-cases, bit_and-seven,
  bit_or-eighth, fun_ext, bit_or,
}
use boom_stop.Base.Cmd.{Returns, returns}
use boom_stop.Util.{Mem, both_aligned, spread, byte_of_word, set_loop, memset}

abbrev has_byte : (b i : ℕ) → Bool
has_byte b i = byte_of_word (spread b) i == b

abbrev spreads : ℕ → Bool
spreads b = all_below (has_byte b) 8

all_spread : all_below spreads 256 ≡ true
unfolding all_below
all_spread = refl

spread-mod : (byte : ℕ) → spread byte ≡ spread (byte % 256)
spread-mod byte = let e : byte % 256 % 256 ≡ byte % 256 = omega arith in rw e refl

spread-byte : (byte i : ℕ) → i < 8 → byte_of_word (spread byte) i ≡ byte % 256
spread-byte byte i h =
    let e : has_byte (byte % 256) i ≡ true =
      all_below_lem (has_byte (byte % 256)) 8 i
        (all_below_lem spreads 256 (byte % 256) all_spread (omega arith)) h in
    let q : byte_of_word (spread (byte % 256)) i ≡ byte % 256 = ground arith in
    rw (spread-mod byte) q

fill_more :
    (m : Mem) (dest n w b : ℕ) (g : ℕ → ℕ)
    → ((i : ℕ) → i < w → g i ≡ b)
    → (a : ℕ) → fill (fill m dest n (λ _. b)) (dest + n) w g a ≡ fill m dest (n + w) (λ _. b) a
fill_more m dest n w b g all a = elim (Bool-cases (leb (dest + n) a && ltb a (dest + n + w))) [
  | inl t ↦
      let inside : (leb dest a && ltb a (dest + (n + w))) ≡ true = ground arith in
      rw (t, inside) (all (a - (dest + n)) (ground arith))
  | inr f ↦ ground arith
]

set_loop_lem :
    (m : Mem) (dest len w b : ℕ) (g : ℕ → ℕ)
    → dest + len < 2 ^ 64
    → 0 < w
    → ((i : ℕ) → i < w → g i ≡ b)
    → (fuel rounds n : ℕ) → rounds ≤ fuel
    → n + rounds * w ≡ len
    → set_loop w g fuel (dest + len) (dest + n) (fill m dest n (λ _. b)) ≡ fill m dest len (λ _. b)
unfolding set_loop
set_loop_lem m dest len w b g fits pos all zero zero n le e =
    let q : n ≡ len = omega arith in rw q refl
set_loop_lem m dest len w b g fits pos all zero (suc rounds) n le e = absurd (omega arith)
set_loop_lem m dest len w b g fits pos all (suc fuel) zero n le e =
    let q : n ≡ len = omega arith in
    let f : ltb (dest + len) (dest + len) ≡ false = ground arith in rw (q, f) refl
set_loop_lem m dest len w b g fits pos all (suc fuel) (suc rounds) n le e =
    let q : n + w + rounds * w ≡ len = omega arith in
    let t : ltb (dest + n) (dest + len) ≡ true = ground arith in
    let d : u64 (dest + n + w) ≡ dest + (n + w) = omega arith in
    let more : fill (fill m dest n (λ _. b)) (dest + n) w g ≡ fill m dest (n + w) (λ _. b) =
      fun_ext (fill_more m dest n w b g all) in
    let ih = set_loop_lem m dest len w b g fits pos all fuel rounds (n + w) (omega arith) q in
    rw (t, d, more) ih

set_loop_start :
    (m : Mem) (dest len w b : ℕ) (g : ℕ → ℕ)
    → dest + len < 2 ^ 64
    → 0 < w
    → ((i : ℕ) → i < w → g i ≡ b)
    → (rounds : ℕ) → rounds ≤ len
    → rounds * w ≡ len
    → set_loop w g len (dest + len) dest m ≡ fill m dest len (λ _. b)
set_loop_start m dest len w b g fits pos all rounds le e =
    let start : dest + 0 ≡ dest = omega arith in
    let nothing : fill m dest 0 (λ _. b) ≡ m = fun_ext λ a. ground arith in
    let r = set_loop_lem m dest len w b g fits pos all len rounds 0 le (omega arith) in
    rw (start, nothing) at r

aligned-len : (dest len : ℕ) → both_aligned dest len ≡ true → len / 8 * 8 ≡ len
aligned-len dest len e =
    omega (arith, bit_or-eighth dest len (bit_and-seven (bit_or dest len) (ground arith)))

-- With an area that does not pass the end of the address space, `memset` returns `dest`, sets every
-- byte of the area to the low byte of its argument, whether it writes words or bytes, and leaves all
-- other bytes as they were.
pub memset-fills :
    (m : Mem) (dest byte len : ℕ)
    → dest + len < 2 ^ 64
    → Returns
        (λ r m'. (r ≡ dest) × (m' ≡ fill m dest len (λ _. byte % 256)))
        (memset dest byte len m)
unfolding memset
memset-fills m dest byte len fits =
    let stop : u64 (dest + len) ≡ dest + len = omega arith in
    elim (Bool-cases (both_aligned dest len)) [
      | inl t ↦
          rw (t, stop)
            (returns (
              refl,
              set_loop_start m dest len 8 (byte % 256) (byte_of_word (spread byte)) fits
                  (omega arith) (spread-byte byte) (len / 8) (omega arith) (aligned-len dest len t),
            ))
      | inr f ↦
          rw (f, stop)
            (returns (
              refl,
              set_loop_start m dest len 1 (byte % 256) (λ _. byte % 256) fits (omega arith)
                  (λ i h. refl) len (omega arith) (omega arith),
            ))
    ]
