-- ===== src/Machine/Fdt/Memory.antt =====
-- `query_mem` in machine/fdt.c: the size of the memory that the firmware itself lies in. A read
-- through a null pointer is taken for the end of the machine, and so is a loop that does not end.
use boom_stop.Base.{
  ℕ, zero, suc, ◌+◌, ◌*◌, ◌/◌, ◌%◌, ◌^◌, Bool, true, false, not, ◌&&◌, List, [], ◌∷◌, Option, none,
  some, u64, ltb, leb, ◌==◌, if◌then◌else◌,
}
use boom_stop.Base.Cmd.{Cmd, ok, panic, pure, halt, kassert, modify, ◌>>◌}
use boom_stop.Util.{Mem}
use boom_stop.Machine.Fdt.{Node, Prop, Scan, Callbacks, is_text, fdt_scan}
use boom_stop.Machine.Fdt.Fields.{fdt_get_address, fdt_get_size, rounds}
use boom_stop.Machine.Fdt.Texts.{device_type_text, memory_text, reg_text}

-- mem_scan, with the global `mem_size`.
pub record MemScan : Type 0 where
  pub memory : Bool
  pub reg_value : ℕ
  pub reg_len : ℕ
  pub mem_size : ℕ

-- The rest of a scan is the business of `fdt_scan`: a callback that only changes its own state.
abbrev pub on_extra : {S : Type 0} → (S → S) → Cmd (Scan S) (Unit {0})
on_extra f = modify (λ s. record s { extra = f s.extra })

unfoldable pub mem_open : List Node → Cmd (Scan MemScan) (Unit {0})
mem_open node = on_extra λ x. record x { memory = false; reg_value = 0; reg_len = 0 }

unfoldable pub mem_prop : Prop → Cmd (Scan MemScan) (Unit {0})
mem_prop p s =
    on_extra
      (λ x.
        if is_text s.mem p.name device_type_text && is_text s.mem p.value memory_text
        then record x { memory = true }
        else if is_text s.mem p.name reg_text
        then record x { reg_value = p.value; reg_len = p.len }
        else x)
      s

-- base <= self && self <= base + size
abbrev pub holds : (self base size : ℕ) → Bool
holds self base size = leb base self && leb self (u64 (base + size))

-- The loop of `mem_done` up to the end of the property, on `mem_size`, with the pointer that it
-- stops at.
unfoldable pub find_bank : (self : ℕ) → Mem → (parent : Node) (fuel end value : ℕ) → Cmd ℕ ℕ
find_bank self m parent zero end value mem_size = panic
find_bank self m parent (suc fuel) end value mem_size =
    let base = fdt_get_address m parent value in
    let second = value + 4 * rounds parent.address_cells in
    let size = fdt_get_size m parent second in
    let next = second + 4 * rounds parent.size_cells in
    (if ltb value end
        then (λ old.
            find_bank self m parent fuel end next (if holds self base size then size else old))
        else pure value)
      mem_size

-- The node above a node, if that is not null.
abbrev pub parent_of : List Node → Option Node
parent_of [] = none
parent_of (node ∷ []) = none
parent_of (node ∷ parent ∷ above) = some parent

unfoldable pub mem_done : (self : ℕ) → List Node → Cmd (Scan MemScan) (Unit {0})
mem_done self node s =
    let x = s.extra in
    let end = x.reg_value + x.reg_len / 4 * 4 in
    let stop = elim (parent_of node) as (λ _. Cmd ℕ ℕ) [
      | none ↦ if ltb x.reg_value end then halt else pure x.reg_value
      | some parent ↦ find_bank self s.mem parent (2 ^ 32) end x.reg_value
    ] in
    (if not x.memory then pure tt else do
      kassert (not (x.reg_value == 0) && x.reg_len % 4 == 0 && ltb x.reg_len (2 ^ 31))
      λ t. elim (stop x.mem_size) [
        | ok value size ↦
            (do kassert (value == end); on_extra (λ y. record y { mem_size = size })) t
        | panic ↦ panic
      ])
      s

abbrev pub no_close : {S : Type 0} → List Node → Cmd (Scan S) Bool
no_close node = pure false

abbrev pub mem_callbacks : (self : ℕ) → Callbacks MemScan
mem_callbacks self = record {
  on_open = mem_open;
  on_prop = mem_prop;
  on_done = mem_done self;
  on_close = no_close;
}

unfoldable pub query_mem : (self fdt : ℕ) → Cmd (Scan MemScan) (Unit {0})
query_mem self fdt = do
  on_extra (λ x. record x { mem_size = 0 })
  fdt_scan fdt (mem_callbacks self)
  λ s. kassert (ltb 0 s.extra.mem_size) s
