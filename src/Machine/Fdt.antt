-- ===== src/Machine/Fdt.antt =====
-- machine/fdt.c: the scan of the flattened device tree and the fields of its properties. A state is
-- the memory of bytes with what a scan keeps as `extra`. A `node` is the chain of the nodes from it
-- up to the root, [] for a null pointer: a node stands in the stack frame of the call of
-- `fdt_scan_helper` for its parent, so that its depth in the chain tells its address. A pointer that
-- leaves the address space is undefined in C, and sums of pointers are not cut.
pub mod Fields
pub mod Bytes
pub mod Words
pub mod Layout
pub mod Plays
pub mod Order
pub mod Siblings
pub mod Redact
pub mod Names
pub mod Texts
pub mod Memory
pub mod Harts
pub mod Interrupts
pub mod Filters
use boom_stop.Base.{
  ℕ, zero, suc, ◌+◌, ◌-◌, ◌*◌, ◌/◌, ◌%◌, ◌^◌, Bool, true, false, not, ◌&&◌, Option, none, some,
  List, [], ◌∷◌, length, bit_and, bit_or, u32, u64, update, ltb, leb, ◌==◌, if◌then◌else◌,
}
use boom_stop.Base.Cmd.{Cmd, ok, panic, pure, halt, kassert, modify, ◌>>=◌, ◌>>◌}
use boom_stop.Util.{Mem}
use boom_stop.Util.Text.{strlen}

unfoldable pub bswap : ℕ → ℕ
bswap x =
    let y = bit_or (u32 (bit_and x 0x00ff_00ff * 2 ^ 8)) (bit_and x 0xff00_ff00 / 2 ^ 8) in
    bit_or (u32 (bit_and y 0x0000_ffff * 2 ^ 16)) (bit_and y 0xffff_0000 / 2 ^ 16)

-- *(uint32_t *)a on a machine that is little-endian, and a write to it.
abbrev pub load32 : Mem → ℕ → ℕ
load32 m a = m a + m (a + 1) * 2 ^ 8 + m (a + 2) * 2 ^ 16 + m (a + 3) * 2 ^ 24

abbrev pub store32 : Mem → ℕ → ℕ → Mem
store32 m a w =
    update
      (update (update (update m a (w % 2 ^ 8)) (a + 1) (w / 2 ^ 8 % 2 ^ 8)) (a + 2)
        (w / 2 ^ 16 % 2 ^ 8))
      (a + 3) (w / 2 ^ 24 % 2 ^ 8)

-- bswap(*a)
abbrev pub token : Mem → ℕ → ℕ
token m a = bswap (load32 m a)

abbrev pub fdt_magic : ℕ
fdt_magic = 0xd00d_feed

abbrev pub fdt_version : ℕ
fdt_version = 17

abbrev pub fdt_begin_node : ℕ
fdt_begin_node = 1

abbrev pub fdt_end_node : ℕ
fdt_end_node = 2

abbrev pub fdt_prop : ℕ
fdt_prop = 3

abbrev pub fdt_nop : ℕ
fdt_nop = 4

-- fdt_scan_node, but for its parent.
pub record Node : Type 0 where
  pub name : ℕ
  pub address_cells : ℕ
  pub size_cells : ℕ

-- fdt_scan_prop
pub record Prop : Type 0 where
  pub node : List Node
  pub name : ℕ
  pub value : ℕ
  pub len : ℕ

pub record Scan (S : Type 0) : Type 0 where
  pub mem : Mem
  pub extra : S

-- fdt_cb. `on_close` tells whether the callback returns -1; a callback that is absent is one that
-- does nothing.
pub record Callbacks (S : Type 0) : Type 0 where
  pub on_open : List Node → Cmd (Scan S) (Unit {0})
  pub on_prop : Prop → Cmd (Scan S) (Unit {0})
  pub on_done : List Node → Cmd (Scan S) (Unit {0})
  pub on_close : List Node → Cmd (Scan S) Bool

-- What a scan ends with: the pointer that it returns, and the node after its properties.
pub record Scanned : Type 0 where
  pub lex : ℕ
  pub node : List Node

-- !strcmp(p, "...")
abbrev pub is_text : Mem → ℕ → List ℕ → Bool
is_text m p [] = m p == 0
is_text m p (x ∷ xs) = m p == x && is_text m (p + 1) xs

-- "#address-cells" and "#size-cells"
abbrev pub address_cells_text : List ℕ
address_cells_text =
    35 ∷ 97 ∷ 100 ∷ 100 ∷ 114 ∷ 101 ∷ 115 ∷ 115 ∷ 45 ∷ 99 ∷ 101 ∷ 108 ∷ 108 ∷ 115 ∷ []

abbrev pub size_cells_text : List ℕ
size_cells_text = 35 ∷ 115 ∷ 105 ∷ 122 ∷ 101 ∷ 45 ∷ 99 ∷ 101 ∷ 108 ∷ 108 ∷ 115 ∷ []

-- The cell counts of a node after a property with that name and first word.
unfoldable pub set_cells : Mem → (name first : ℕ) → Node → Node
set_cells m name first node =
    let n =
      if is_text m name address_cells_text then record node { address_cells = first } else node in
    if is_text m name size_cells_text then record n { size_cells = first } else n

-- The same of a node that a pointer is to.
abbrev pub set_node_cells : Mem → (name first : ℕ) → List Node → List Node
set_node_cells m name first [] = []
set_node_cells m name first (node ∷ parents) = set_cells m name first node ∷ parents

-- lex += 3 + (prop.len+3)/4, with `prop.len` an `int`
abbrev pub after_prop : (lex len : ℕ) → ℕ
after_prop lex len =
    if ltb len (2 ^ 31) then lex + 12 + (len + 3) / 4 * 4 else lex + 12 - (2 ^ 32 - len - 3) / 4 * 4

-- The cell counts that a node has at first.
abbrev pub new_child : Node
new_child = record { name = 0; address_cells = 2; size_cells = 1 }

-- The loop that puts FDT_NOP in place of a node and its children.
unfoldable pub erase_node : (rounds lex : ℕ) → Mem → Mem
erase_node zero lex m = m
erase_node (suc rounds) lex m = erase_node rounds (lex + 4) (store32 m lex (bswap fdt_nop))

-- The child node of a frame, from the chain that its scan gives back.
abbrev pub first_node : List Node → Node
first_node [] = new_child
first_node (child ∷ node) = child

abbrev pub read_prop : (strings lex : ℕ) → List Node → Mem → Prop
read_prop strings lex node m = record {
  node = set_node_cells m (strings + token m (lex + 8)) (token m (lex + 12)) node;
  name = strings + token m (lex + 8);
  value = lex + 12;
  len = token m (lex + 4);
}

-- The rest of a scan, from the token at a pointer on.
abbrev pub Rest : Type 0 → Type 0
Rest S = (lex : ℕ) (node : List Node) (child : Node) (last : Bool) → Cmd (Scan S) Scanned

-- Only trees whose magic and version are understood.
abbrev pub is_understood : Mem → ℕ → Bool
is_understood m fdt = token m fdt == fdt_magic && leb (token m (fdt + 24)) fdt_version

module _ {S : Type 0} where
  abbrev pub strlen_here : ℕ → Cmd (Scan S) ℕ
  strlen_here p s = elim (strlen (2 ^ 64) p s.mem) [ ok n m ↦ ok n s | panic ↦ panic ]

  -- if (!last && node && cb->done) cb->done(node, cb->extra)
  unfoldable pub done_unless : (last : Bool) → Callbacks S → List Node → Cmd (Scan S) (Unit {0})
  done_unless true cb node = pure tt
  done_unless false cb [] = pure tt
  done_unless false cb (node ∷ parents) = cb.on_done (node ∷ parents)

  -- case FDT_PROP
  unfoldable pub scan_prop :
      Rest S → Callbacks S → (lex : ℕ) (child : Node) (last : Bool) → Prop → Cmd (Scan S) Scanned
  scan_prop rest cb lex child last p = do
    kassert (not last)
    cb.on_prop p
    rest (after_prop lex p.len) p.node child last

  abbrev pub erase_if : Bool → (lex lex_next : ℕ) → Cmd (Scan S) (Unit {0})
  erase_if false lex lex_next = pure tt
  erase_if true lex lex_next = do
    kassert (leb lex lex_next)
    modify (λ s. record s { mem = erase_node ((lex_next - lex) / 4) lex s.mem })

  -- case FDT_BEGIN_NODE
  unfoldable pub scan_child :
      Rest S
      → Callbacks S
      → (lex : ℕ) (node : List Node) (child : Node) (last : Bool) → Cmd (Scan S) Scanned
  unfolding done_unless
  scan_child rest cb lex node child last = do
    done_unless last cb node
    cb.on_open (record child { name = lex + 4 } ∷ node)
    n ← strlen_here (lex + 4)
    inner ← rest (lex + 8 + n / 4 * 4) (record child { name = lex + 4 } ∷ node) new_child false
    deleted ← cb.on_close inner.node
    erase_if deleted lex inner.lex
    rest inner.lex node (first_node inner.node) true

  -- `fdt_scan_helper`, from the token at `lex` on. A scan that has not ended after `fuel` tokens is
  -- one that never does.
  unfoldable pub scan_helper : Callbacks S → (strings fuel : ℕ) → Rest S
  unfolding scan_prop scan_child done_unless
  scan_helper cb strings zero lex node child last s = panic
  scan_helper cb strings (suc fuel) lex node child last s =
      let rest = scan_helper cb strings fuel in
      let t = token s.mem lex in
      (if t == fdt_nop
          then rest (lex + 4) node child last
          else if t == fdt_prop
          then scan_prop rest cb lex child last (read_prop strings lex node s.mem)
          else if t == fdt_begin_node
          then scan_child rest cb lex node child last
          else do
            done_unless last cb node
            pure (record { lex = if t == fdt_end_node then lex + 4 else lex; node = node }))
        s

  unfoldable pub fdt_scan : (fdt : ℕ) → Callbacks S → Cmd (Scan S) (Unit {0})
  fdt_scan fdt cb s =
      if is_understood s.mem fdt
      then (do
        scan_helper cb (fdt + token s.mem (fdt + 12)) (2 ^ 64) (fdt + token s.mem (fdt + 8)) []
            new_child false
        pure tt)
          s
      else ok tt s

unfoldable pub fdt_size : Mem → ℕ → ℕ
fdt_size m fdt = if is_understood m fdt then token m (fdt + 4) else 0
