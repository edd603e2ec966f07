-- ===== src/Ckpt/Log.antt =====
-- The record of the system calls in the memory of the loaded program: `log` gives its bytes, from
-- `lo` up to `hi`, and the memory agrees with it there.
use boom_stop.Base.{
  ℕ, zero, suc, ◌+◌, ◌-◌, ◌*◌, ◌/◌, ◌%◌, ◌^◌, ◌≤◌, ◌<◌, ◌≡◌, refl, ◌∙◌, Bool, true, false, ◌&&◌,
  ◌⊎◌, inl, inr, update, fill, leb, ltb, ◌==◌, if◌then◌else◌, arith, Bool-cases,
}
use boom_stop.Ckpt.{read_le, sysidx, sinfo_at, info_num, info_data_offset}
use boom_stop.Ckpt.Takeover.{copy_data}

abbrev pub Agree : (lo hi : ℕ) (log memory : ℕ → ℕ) → Type 0
Agree lo hi log memory = (a : ℕ) → lo ≤ a → a < hi → memory a ≡ log a

-- `size` bytes at an address that has none of the record.
abbrev pub Apart : (lo hi addr size : ℕ) → Type 0
Apart lo hi addr size = (addr + size ≤ lo) ⊎ (hi ≤ addr)

pub read_le-Agree :
    (lo hi addr len : ℕ) (log memory : ℕ → ℕ)
    → Agree lo hi log memory
    → lo ≤ addr
    → addr + len ≤ hi
    → read_le memory addr len ≡ read_le log addr len
unfolding read_le
read_le-Agree lo hi addr zero log memory same above fits = refl
read_le-Agree lo hi addr (suc len) log memory same above fits =
    let here = same addr above (omega arith) in
    let rest = read_le-Agree lo hi (addr + 1) len log memory same (omega arith) (omega arith) in
    rw (here, rest) refl

pub fill-Agree :
    (lo hi addr size : ℕ) (log memory g : ℕ → ℕ)
    → Agree lo hi log memory
    → Apart lo hi addr size
    → Agree lo hi log (fill memory addr size g)
fill-Agree lo hi addr size log memory g same (inl below) a l h =
    let out : (leb addr a && ltb a (addr + size)) ≡ false = ground arith in rw out (same a l h)
fill-Agree lo hi addr size log memory g same (inr above) a l h =
    let out : (leb addr a && ltb a (addr + size)) ≡ false = ground arith in rw out (same a l h)

update-Agree :
    (lo hi addr v : ℕ) (log memory : ℕ → ℕ)
    → Agree lo hi log memory
    → Apart lo hi addr 1
    → Agree lo hi log (update memory addr v)
update-Agree lo hi addr v log memory same (inl below) a l h =
    let out : (addr == a) ≡ false = ground arith in rw out (same a l h)
update-Agree lo hi addr v log memory same (inr above) a l h =
    let out : (addr == a) ≡ false = ground arith in rw out (same a l h)

Apart-byte : (lo hi addr size i : ℕ) → i < size → Apart lo hi addr size → Apart lo hi (addr + i) 1
Apart-byte lo hi addr size i low (inl below) = inl (omega arith)
Apart-byte lo hi addr size i low (inr above) = inr (omega arith)

one_byte :
    (left dst from dst1 from1 : ℕ) (log memory : ℕ → ℕ) (a : ℕ)
    → dst1 ≡ dst + 1
    → from1 ≡ from + 1
    → memory from ≡ log from
    → fill (update memory dst (memory from)) dst1 left (λ i. log (from1 + i)) a
      ≡ fill memory dst (suc left) (λ i. log (from + i)) a
one_byte left dst from dst1 from1 log memory a d f e = elim (Bool-cases (dst == a)) [
  | inl here ↦
      let before : (leb dst1 a && ltb a (dst1 + left)) ≡ false = ground arith in
      let inside : (leb dst a && ltb a (dst + suc left)) ≡ true = ground arith in
      let first : from + (a - dst) ≡ from = ground arith in rw (before, inside, here, first) e
  | inr other ↦ elim (Bool-cases (leb dst1 a && ltb a (dst1 + left))) [
    | inl rest ↦
        let inside : (leb dst a && ltb a (dst + suc left)) ≡ true = ground arith in
        let place : from1 + (a - dst1) ≡ from + (a - dst) = ground arith in
        rw (rest, inside, place) refl
    | inr out ↦
        let outside : (leb dst a && ltb a (dst + suc left)) ≡ false = ground arith in
        rw (out, outside, other) refl
  ]
]

-- The loop writes the bytes of the record, one after the other.
pub copy_data-fill :
    (lo hi left c size dst from : ℕ) (log memory : ℕ → ℕ)
    → c + left ≡ size
    → Agree lo hi log memory
    → lo ≤ from
    → from + size ≤ hi
    → Apart lo hi dst size
    → (a : ℕ)
    → copy_data left c dst from memory a ≡ fill memory (dst + c) left (λ i. log (from + c + i)) a
unfolding copy_data
copy_data-fill lo hi zero c size dst from log memory e same above fits apart a =
    let out : (leb (dst + c) a && ltb a (dst + c + 0)) ≡ false = ground arith in rw out refl
copy_data-fill lo hi (suc left) c size dst from log memory e same above fits apart a =
    let byte = same (from + c) (omega arith) (omega arith) in
    let same1 =
      update-Agree lo hi (dst + c) (memory (from + c)) log memory same
        (Apart-byte lo hi dst size c (omega arith) apart) in
    copy_data-fill lo hi left (c + 1) size dst from log _ (omega arith) same1 above fits apart a
    ∙ one_byte left (dst + c) (from + c) (dst + (c + 1)) (from + (c + 1)) log memory a (omega arith)
        (omega arith) byte

-- The record of `total` calls that are laid out in it, with the data of each; the buffers
-- that the data goes to have none of the record.
module _ (log : ℕ → ℕ) (lo hi total : ℕ) where
  abbrev pub recorded : (i : ℕ) → ℕ
  recorded i = sinfo_at log lo total (sysidx log lo i)

  abbrev pub data_offset : (i : ℕ) → ℕ
  data_offset i = info_data_offset log (recorded i) / 2 ^ 8

  abbrev pub data_size : (i : ℕ) → ℕ
  data_size i = info_num log (recorded i) % 2 ^ 32

  abbrev pub bufaddr : (i : ℕ) → ℕ
  bufaddr i = read_le log (lo + data_offset i) 8

  abbrev pub has_data : (i : ℕ) → Bool
  has_data i = if data_offset i == 0xffffffff then false else if bufaddr i == 0 then false else true

  pub record IsLog : Type 0 where
    pub indices : lo + 8 + 4 * total ≤ hi
    pub entries : (i : ℕ) → i < total → recorded i + 40 ≤ hi
    pub headers :
        (i : ℕ) → i < total → (data_offset i == 0xffffffff) ≡ false → lo + data_offset i + 8 ≤ hi
    pub contents :
        (i : ℕ) → i < total → has_data i ≡ true → lo + data_offset i + 8 + data_size i ≤ hi
    pub buffers : (i : ℕ) → i < total → has_data i ≡ true → Apart lo hi (bufaddr i) (data_size i)
