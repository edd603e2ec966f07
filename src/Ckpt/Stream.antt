-- ===== src/Ckpt/Stream.antt =====
-- The calls of the C library and the operating system that the loader makes. `fread` copies the bytes
-- that the file has left, and what it does not fill keeps what it held, which for a variable that is
-- not set is a parameter. The memory that is mapped is zero; where it is placed, and whether it is,
-- is a parameter.
use boom_stop.Base.{ℕ, ◌+◌, ◌*◌, fill, ltb, leb, if◌then◌else◌}
use boom_stop.Ckpt.{read_le, le_byte}

pub record CkptFile : Type 0 where
  pub content : ℕ → ℕ
  pub size : ℕ
  pub pos : ℕ

-- mmap, from the address that is asked for and the size: anywhere, or there (MAP_FIXED).
pub record Os : Type 0 where
  pub place : (hint size : ℕ) → ℕ
  pub fixed : (addr size : ℕ) → ℕ

abbrev pub advance : (n : ℕ) → CkptFile → CkptFile
advance n f = record f {
  pos = if leb (f.pos + n) f.size then f.pos + n else if leb f.pos f.size then f.size else f.pos;
}

-- The byte at `i` from the place in the file, or what was there before.
abbrev pub byte_read : (old : ℕ → ℕ) → CkptFile → (ℕ → ℕ)
byte_read old f i = if ltb (f.pos + i) f.size then f.content (f.pos + i) else old i

-- fread of a 64-bit variable.
unfoldable pub fread_u64 : (old : ℕ) → CkptFile → ℕ × CkptFile
fread_u64 old f = (read_le (byte_read (le_byte old) f) 0 8, advance 8 f)

-- fread of `n` registers.
abbrev pub fread_regs : (n : ℕ) (old : ℕ → ℕ) → CkptFile → (ℕ → ℕ) × CkptFile
fread_regs n old f = (
  λ r. if ltb r n then (fread_u64 (old r) (record f { pos = f.pos + 8 * r })).0 else old r,
  advance (8 * n) f,
)

abbrev pub map_zero : (addr size : ℕ) → (ℕ → ℕ) → (ℕ → ℕ)
map_zero addr size memory = fill memory addr size (λ _. 0)

-- fread into memory.
abbrev pub fread_into : (addr n : ℕ) → CkptFile → (ℕ → ℕ) → (ℕ → ℕ)
fread_into addr n f memory = fill memory addr n (byte_read (λ i. memory (addr + i)) f)

-- fread into a struct, whose bytes are numbered from 0.
abbrev pub fread_struct : (n : ℕ) (old : ℕ → ℕ) → CkptFile → (ℕ → ℕ)
fread_struct n old f = fill old 0 n (byte_read old f)

abbrev pub seek : (pos : ℕ) → CkptFile → CkptFile
seek pos f = record f { pos = pos }
