-- ===== src/Machine/Misaligned/Round.antt =====
-- What is stored and then loaded.
use boom_stop.Base.{
  ℕ, zero, suc, ◌+◌, ◌-◌, ◌*◌, ◌/◌, ◌%◌, ◌^◌, ◌≤◌, ◌<◌, ◌≡◌, refl, ◌∙◌, ap, subst, Bool, true,
  false, ◌&&◌, ◌||◌, Option, none, some, update, u64, ltb, leb, ◌==◌, if◌then◌else◌, arith, ◌⊎◌,
  inl, inr,
}
use boom_stop.Machine.Misaligned.Signs.{
  loads_unsigned, loaded_value, extend_lem, sign_matches, decode_load-sign_matches, by_sign,
}
use boom_stop.Machine.Misaligned.{
  Hart, Access, decode_load, decode_store, load_bytes, store_bytes, set_loaded, stored_value,
  extend, insn_len, misaligned_load_trap, misaligned_store_trap,
}

-- The low bytes of a value.
abbrev pub low_bytes : (len val : ℕ) → ℕ
low_bytes zero val = 0
low_bytes (suc len) val = val % 2 ^ 8 + 2 ^ 8 * low_bytes len (val / 2 ^ 8)

store_bytes-suc :
    (len addr val : ℕ) (byte : ℕ → ℕ)
    → addr + 1 < 2 ^ 64
    → store_bytes (suc len) addr val byte
      ≡ store_bytes len (addr + 1) (val / 2 ^ 8) (update byte addr (val % 2 ^ 8))
unfolding store_bytes
store_bytes-suc len addr val byte small =
    ap (λ a. store_bytes len a (val / 2 ^ 8) (update byte addr (val % 2 ^ 8))) (omega arith)

store_bytes_other :
    (len addr val b : ℕ) (byte : ℕ → ℕ)
    → addr + len ≤ 2 ^ 64 - 1
    → (leb addr b && ltb b (addr + len)) ≡ false
    → store_bytes len addr val byte b ≡ byte b
unfolding store_bytes
store_bytes_other zero addr val b byte fits out = refl
store_bytes_other (suc len) addr val b byte fits out =
    let n : u64 (addr + 1) ≡ addr + 1 = omega arith in
    let here : update byte addr (val % 2 ^ 8) b ≡ byte b = ground arith in
    rw n (
      store_bytes_other len (addr + 1) (val / 2 ^ 8) b (update byte addr (val % 2 ^ 8))
        (omega arith) (ground arith)
      ∙ here)

load_bytes-store_bytes :
    (len addr val : ℕ) (byte : ℕ → ℕ)
    → addr + len ≤ 2 ^ 64 - 1
    → load_bytes (store_bytes len addr val byte) len addr ≡ low_bytes len val
unfolding load_bytes
load_bytes-store_bytes zero addr val byte fits = refl
load_bytes-store_bytes (suc len) addr val byte fits =
    let n : u64 (addr + 1) ≡ addr + 1 = omega arith in
    let byte1 = update byte addr (val % 2 ^ 8) in
    let here : byte1 addr ≡ val % 2 ^ 8 = ground arith in
    let kept =
      store_bytes_other len (addr + 1) (val / 2 ^ 8) addr byte1 (omega arith) (ground arith) in
    let rest = load_bytes-store_bytes len (addr + 1) (val / 2 ^ 8) byte1 (omega arith) in
    ap (λ g. load_bytes g (suc len) addr) (store_bytes-suc len addr val byte (omega arith))
    ∙ rw (n, kept, rest, here) refl

low_bytes-mod :
    (len val : ℕ) → ((len ≡ 2) ⊎ (len ≡ 4)) ⊎ (len ≡ 8) → low_bytes len val ≡ val % 2 ^ (8 * len)
low_bytes-mod len val (inl (inl e)) = rw e (omega arith)
low_bytes-mod len val (inl (inr e)) = rw e (omega arith)
low_bytes-mod len val (inr e) = rw e (omega arith)

-- The lengths of the instructions.
abbrev has_size : Option Access → Bool
has_size none = true
has_size (some a) = a.len == 2 || a.len == 4 || a.len == 8

has_size-if :
    (b : Bool) (o p : Option Access)
    → has_size (if b then o else p) ≡ (if b then has_size o else has_size p)
has_size-if true o p = refl
has_size-if false o p = refl

decode_store-has_size : (insn : ℕ) → has_size (decode_store insn) ≡ true
unfolding decode_store
decode_store-has_size insn = ground arith

low_bytes_stored :
    (st val : ℕ) (a : Access)
    → decode_store st ≡ some a
    → low_bytes a.len val ≡ val % 2 ^ (8 * a.len)
low_bytes_stored st val a d =
    let s : has_size (some a) ≡ true = rw d at (decode_store-has_size st) in
    low_bytes-mod a.len val (ground arith)

-- The value that the code gives a register is the one of the instruction.
set_value :
    (st ld val : ℕ) (a b : Access)
    → decode_store st ≡ some a
    → decode_load ld ≡ some b
    → a.len ≡ b.len
    → b.fp ≡ false
    → (if b.signed then extend b.len (val % 2 ^ (8 * b.len)) else val % 2 ^ (8 * b.len))
      ≡ loaded_value ld b.len val
set_value st ld val a b d e same int =
    let s : has_size (some a) ≡ true = rw d at (decode_store-has_size st) in
    let len : ((b.len ≡ 2) ⊎ (b.len ≡ 4)) ⊎ (b.len ≡ 8) = ground (arith, s, same) in
    let m : sign_matches ld (some b) ≡ true = rw e at (decode_load-sign_matches ld) in
    by_sign (loads_unsigned ld) b.signed (val % 2 ^ (8 * b.len)) _ _ (rw int at m)
      (extend_lem b.len val len)

store_trap_lem :
    (st addr : ℕ) (h : Hart) (a : Access)
    → decode_store st ≡ some a
    → misaligned_store_trap st addr h
      ≡ some (record h {
        byte = store_bytes a.len addr (stored_value a h) h.byte;
        mepc = u64 (h.mepc + insn_len st);
      })
unfolding misaligned_store_trap
store_trap_lem st addr h a d = rw (d, misaligned_store_trap) refl

load_trap_lem :
    (single : ℕ → ℕ) (ld addr : ℕ) (h : Hart) (b : Access)
    → decode_load ld ≡ some b
    → misaligned_load_trap single ld addr h
      ≡ some (record (set_loaded single b (load_bytes h.byte b.len addr) h) {
        mepc = u64 (h.mepc + insn_len ld);
      })
unfolding misaligned_load_trap
load_trap_lem single ld addr h b d = rw (d, misaligned_load_trap) refl

-- A store and then a load of as many bytes at the same address, not at the very end of the address
-- space, into an integer register: both return, the register has the low bytes of the value that was
-- stored, as a number without a sign for LWU and LHU, which bit 14 of the instruction tells from the
-- others, and as one with a sign for the others; no other register and no byte outside of the access is
-- changed, and the program goes on behind both instructions.
pub misaligned_load-store :
    (single : ℕ → ℕ) (st ld addr : ℕ) (h : Hart) (a b : Access)
    → decode_store st ≡ some a
    → decode_load ld ≡ some b
    → a.len ≡ b.len
    → b.fp ≡ false
    → addr + a.len < 2 ^ 64
    → (h1 : Hart) × (h2 : Hart) × (misaligned_store_trap st addr h ≡ some h1)
      × (misaligned_load_trap single ld addr h1 ≡ some h2)
      × (h2.regs ≡ update h.regs b.reg (loaded_value ld b.len (stored_value a h)))
      × (h2.fregs ≡ h.fregs)
      × ((c : ℕ) → (leb addr c && ltb c (addr + a.len)) ≡ false → h2.byte c ≡ h.byte c)
      × (h2.mepc ≡ u64 (u64 (h.mepc + insn_len st) + insn_len ld))
misaligned_load-store single st ld addr h a b d e same int small =
    let val = stored_value a h in
    let h1 : Hart = record h {
      byte = store_bytes a.len addr val h.byte;
      mepc = u64 (h.mepc + insn_len st);
    } in
    let h2 : Hart = record h1 {
      regs = update h.regs b.reg (loaded_value ld b.len val);
      mepc = u64 (h1.mepc + insn_len ld);
    } in
    let back : load_bytes h1.byte b.len addr ≡ val % 2 ^ (8 * b.len) =
      subst (λ n. load_bytes h1.byte n addr ≡ val % 2 ^ (8 * n)) same
        (load_bytes-store_bytes a.len addr val h.byte (omega arith)
          ∙ low_bytes_stored st val a d) in
    (
      h1,
      h2,
      store_trap_lem st addr h a d,
      load_trap_lem single ld addr h1 b e
          ∙ rw (back, int)
              (ap
                (λ x.
                  some (record h1 {
                    regs = update h.regs b.reg x;
                    mepc = u64 (h1.mepc + insn_len ld);
                  }))
                (set_value st ld val a b d e same int)),
      refl,
      refl,
      λ c out. store_bytes_other a.len addr val c h.byte (omega arith) out,
      refl,
    )
