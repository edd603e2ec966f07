-- ===== src/Pk/Elf/Rights.antt =====
-- The rights of a segment.
use boom_stop.Base.{ℕ, ◌<◌, ◌≡◌, refl, true, false, Bool, arith, bit_or, if◌then◌else◌}
use boom_stop.Pk.Mmap.Walk.{has_bit}
use boom_stop.Pk.Elf.{get_prot}

-- The three bits, given in the order of `p_flags`.
rights_of : Bool → Bool → Bool → ℕ
rights_of x w r = bit_or (bit_or (if x then 4 else 0) (if w then 2 else 0)) (if r then 1 else 0)

rights_of_lem :
    (x w r : Bool)
    → (has_bit 0 (rights_of x w r) ≡ r)
      × (has_bit 1 (rights_of x w r) ≡ w)
      × (has_bit 2 (rights_of x w r) ≡ x)
      × (rights_of x w r < 8)
unfolding rights_of
rights_of_lem true true true = (refl, refl, refl, omega arith)
rights_of_lem true true false = (refl, refl, refl, omega arith)
rights_of_lem true false true = (refl, refl, refl, omega arith)
rights_of_lem true false false = (refl, refl, refl, omega arith)
rights_of_lem false true true = (refl, refl, refl, omega arith)
rights_of_lem false true false = (refl, refl, refl, omega arith)
rights_of_lem false false true = (refl, refl, refl, omega arith)
rights_of_lem false false false = (refl, refl, refl, omega arith)

-- `get_prot` turns the order of the three bits round: PROT_READ is PF_R, PROT_WRITE is PF_W,
-- PROT_EXEC is PF_X, and no other bit is set, whatever else `p_flags` has.
get_prot-rights :
    (p_flags : ℕ)
    → (has_bit 0 (get_prot p_flags) ≡ has_bit 2 p_flags)
      × (has_bit 1 (get_prot p_flags) ≡ has_bit 1 p_flags)
      × (has_bit 2 (get_prot p_flags) ≡ has_bit 0 p_flags)
      × (get_prot p_flags < 8)
unfolding get_prot rights_of
get_prot-rights p_flags = rights_of_lem (has_bit 0 p_flags) (has_bit 1 p_flags) (has_bit 2 p_flags)
