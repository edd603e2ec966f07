-- ===== src/Machine/Misaligned/Signs.antt =====
-- Which loads have a sign, from the bits of the instruction, and what they give.
use boom_stop.Base.{
  ℕ, ◌-◌, ◌*◌, ◌/◌, ◌%◌, ◌^◌, ◌≡◌, refl, ◌∙◌, ap, sym, Bool, true, false, not, bit_and, ◌&&◌, ◌||◌,
  Option, none, some, ◌==◌, if◌then◌else◌, arith, ◌⊎◌, inl, inr,
}
use boom_stop.Machine.Trap.{bit}
use boom_stop.Machine.Trap.Redirect.{bit-bit_and}
use boom_stop.Machine.Muldiv.{target}
use boom_stop.Machine.Misaligned.{
  Access, is_insn, is_rvc, access, short_source, decode_load, extend,
}

-- A load of 32 bits is one without a sign if bit 14 is set; all loads of 16 bits have a sign.
abbrev pub loads_unsigned : (insn : ℕ) → Bool
loads_unsigned insn = bit 0 insn && bit 1 insn && bit 14 insn

-- The low `len` bytes of a value, or as a number with a sign, on 64 bits.
abbrev pub low_value : (len val : ℕ) → ℕ
low_value len val = val % 2 ^ (8 * len)

abbrev pub signed_value : (len val : ℕ) → ℕ
signed_value len val =
    if val / 2 ^ (8 * len - 1) % 2 == 1
    then 2 ^ 64 - (2 ^ (8 * len) - low_value len val)
    else low_value len val

-- What a load `insn` of `len` bytes gives, of the value that was stored.
abbrev pub loaded_value : (insn len val : ℕ) → ℕ
loaded_value insn len val = if loads_unsigned insn then low_value len val else signed_value len val

pub extend_lem :
    (len val : ℕ)
    → ((len ≡ 2) ⊎ (len ≡ 4)) ⊎ (len ≡ 8)
    → extend len (val % 2 ^ (8 * len)) ≡ signed_value len val
extend_lem len val (inl (inl e)) = rw e (ground arith)
extend_lem len val (inl (inr e)) = rw e (ground arith)
extend_lem len val (inr e) = rw e (ground arith)

masked_bit :
    (i insn mask match : ℕ)
    → (bit_and insn mask == match) ≡ true
    → bit i mask ≡ true
    → bit i insn ≡ bit i match
masked_bit i insn mask match e set =
    let same : bit_and insn mask ≡ match = ground arith in
    let both : (bit i insn && bit i mask) ≡ bit i match =
      sym (bit-bit_and i insn mask) ∙ ap (bit i) same in
    and_true (bit i insn) ∙ rw set at both
  where
    and_true : (b : Bool) → b ≡ (b && true)
    and_true true = refl
    and_true false = refl

-- A decoded load of an integer has a sign as the bits of the instruction say.
abbrev pub sign_matches : (insn : ℕ) → Option Access → Bool
sign_matches insn none = true
sign_matches insn (some a) =
    a.fp || (if a.signed then not (loads_unsigned insn) else loads_unsigned insn)

sign_if :
    (insn : ℕ) (c : Bool) (o p : Option Access)
    → (c ≡ true → sign_matches insn o ≡ true)
    → sign_matches insn p ≡ true
    → sign_matches insn (if c then o else p) ≡ true
sign_if insn true o p first rest = first refl
sign_if insn false o p first rest = rest

module _ (insn : ℕ) where
  has_sign :
      (match : ℕ) → bit 14 match ≡ false → is_insn insn match ≡ true → loads_unsigned insn ≡ false
  has_sign match clear e =
      let b = masked_bit 14 insn 0x707f match e refl in rw (b, clear) (ground arith)

  no_sign :
      (match : ℕ)
      → (bit 0 match && bit 1 match && bit 14 match) ≡ true
      → is_insn insn match ≡ true
      → loads_unsigned insn ≡ true
  no_sign match set e =
      let b0 = masked_bit 0 insn 0x707f match e refl in
      let b1 = masked_bit 1 insn 0x707f match e refl in
      let b14 = masked_bit 14 insn 0x707f match e refl in rw (b0, b1, b14) set

  short_sign :
      (match : ℕ)
      → (bit 0 match && bit 1 match) ≡ false
      → is_rvc insn match ≡ true
      → loads_unsigned insn ≡ false
  short_sign match clear e =
      let b0 = masked_bit 0 insn 0xe003 match e refl in
      let b1 = masked_bit 1 insn 0xe003 match e refl in
      rw (b0, b1) (either (bit 0 match) (bit 1 match) (bit 14 insn) clear)
    where
      either : (b c d : Bool) → (b && c) ≡ false → (b && c && d) ≡ false
      either b c d e = ground arith

  signed_matches :
      (len reg : ℕ)
      → loads_unsigned insn ≡ false
      → sign_matches insn (access len true false reg) ≡ true
  signed_matches len reg e = rw e refl

  unsigned_matches :
      (len reg : ℕ)
      → loads_unsigned insn ≡ true
      → sign_matches insn (access len false false reg) ≡ true
  unsigned_matches len reg e = rw e refl

  and_left : (b c : Bool) → (b && c) ≡ true → b ≡ true
  and_left b c e = ground arith

  pub decode_load-sign_matches : sign_matches insn (decode_load insn) ≡ true
  unfolding decode_load
  decode_load-sign_matches =
      sign_if insn (is_insn insn 0x2003) _ _
        (λ e. signed_matches 4 (target insn) (has_sign 0x2003 refl e))
        (sign_if insn (is_insn insn 0x3003) _ _
          (λ e. signed_matches 8 (target insn) (has_sign 0x3003 refl e))
          (sign_if insn (is_insn insn 0x6003) _ _
            (λ e. unsigned_matches 4 (target insn) (no_sign 0x6003 refl e))
            (sign_if insn (is_insn insn 0x3007) _ _ (λ e. refl)
              (sign_if insn (is_insn insn 0x2007) _ _ (λ e. refl)
                (sign_if insn (is_insn insn 0x1003) _ _
                  (λ e. signed_matches 2 (target insn) (has_sign 0x1003 refl e))
                  (sign_if insn (is_insn insn 0x5003) _ _
                    (λ e. unsigned_matches 2 (target insn) (no_sign 0x5003 refl e))
                    (sign_if insn (is_rvc insn 0x6000) _ _
                      (λ e. signed_matches 8 (short_source insn) (short_sign 0x6000 refl e))
                      (sign_if insn (is_rvc insn 0x6002 && not (target insn == 0)) _ _
                        (λ e.
                          signed_matches 8 (target insn) (short_sign 0x6002 refl (and_left _ _ e)))
                        (sign_if insn (is_rvc insn 0x4000) _ _
                          (λ e. signed_matches 4 (short_source insn) (short_sign 0x4000 refl e))
                          (sign_if insn (is_rvc insn 0x4002 && not (target insn == 0)) _ _
                            (λ e.
                              signed_matches 4 (target insn)
                                (short_sign 0x4002 refl (and_left _ _ e)))
                            (sign_if insn (is_rvc insn 0x2000) _ _ (λ e. refl)
                              (sign_if insn (is_rvc insn 0x2002) _ _ (λ e. refl) (refl)))))))))))))

pub by_sign :
    (unsigned signed : Bool) (low extended wanted : ℕ)
    → (if signed then not unsigned else unsigned) ≡ true
    → extended ≡ wanted
    → (if signed then extended else low) ≡ (if unsigned then low else wanted)
by_sign true true low extended wanted m e = ground arith
by_sign true false low extended wanted m e = refl
by_sign false true low extended wanted m e = e
by_sign false false low extended wanted m e = ground arith
