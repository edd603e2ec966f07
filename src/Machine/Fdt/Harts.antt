-- ===== src/Machine/Fdt/Harts.antt =====
-- `query_harts` in machine/fdt.c. A pointer to a node is its depth in the chain, 0 for a null
-- pointer; an `int` is its 32-bit pattern.
use boom_stop.Base.{
  ℕ, ◌-◌, ◌/◌, ◌%◌, ◌^◌, Bool, false, not, ◌&&◌, List, ◌∷◌, none, some, length, update, bit_or, u32,
  ltb, ◌==◌, if◌then◌else◌,
}
use boom_stop.Base.Cmd.{Cmd, pure, halt, kassert, ◌>>◌}
use boom_stop.Machine.Fdt.{Node, Prop, Scan, Callbacks, is_text, fdt_scan}
use boom_stop.Machine.Fdt.Fields.{fdt_get_address, fdt_get_value}
use boom_stop.Machine.Fdt.Memory.{on_extra, parent_of}
use boom_stop.Machine.Fdt.Texts.{
  device_type_text, cpu_text, interrupt_controller_text, interrupt_cells_text, phandle_text,
  reg_text,
}

-- MAX_HARTS
abbrev pub max_harts : ℕ
max_harts = 8

-- hart_scan, with the globals that the scan sets and the harts for which it calls `hls_init`.
pub record HartScan : Type 0 where
  pub cpu : ℕ
  pub hart : ℕ
  pub controller : ℕ
  pub cells : ℕ
  pub phandle : ℕ
  pub hart_phandles : ℕ → ℕ
  pub hart_mask : ℕ
  pub hls_inits : List ℕ

unfoldable pub hart_open : List Node → Cmd (Scan HartScan) (Unit {0})
hart_open node = do
  on_extra (λ x. if x.cpu == 0 then record x { hart = 2 ^ 32 - 1 } else x)
  on_extra (λ x. if x.controller == 0 then record x { cells = 0; phandle = 0 } else x)

-- fdt_get_address(prop->node->parent, prop->value, ...), given to `k`.
abbrev pub with_address :
    {S : Type 0} → Prop → (ℕ → Cmd (Scan S) (Unit {0})) → Cmd (Scan S) (Unit {0})
with_address {S} p k s =
    elim (parent_of p.node) as (λ _. Cmd (Scan S) (Unit {0})) [
      | none ↦ halt
      | some parent ↦ k (fdt_get_address s.mem parent p.value)
    ]
      s

unfoldable pub hart_prop : Prop → Cmd (Scan HartScan) (Unit {0})
hart_prop p s =
    (if is_text s.mem p.name device_type_text && is_text s.mem p.value cpu_text
        then kassert (s.extra.cpu == 0) >> on_extra (λ x. record x { cpu = length p.node })
        else if is_text s.mem p.name interrupt_controller_text
        then kassert (s.extra.controller == 0)
          >> on_extra (λ x. record x { controller = length p.node })
        else if is_text s.mem p.name interrupt_cells_text
        then on_extra (λ x. record x { cells = fdt_get_value s.mem p 0 })
        else if is_text s.mem p.name phandle_text
        then on_extra (λ x. record x { phandle = fdt_get_value s.mem p 0 })
        else if is_text s.mem p.name reg_text
        then with_address p (λ reg. on_extra (λ x. record x { hart = u32 reg }))
        else pure tt)
      s

-- A hart that is found. A negative index would be a write outside of the table.
abbrev add_hart : HartScan → HartScan
add_hart x =
    if ltb x.hart max_harts
    then record x {
      hart_phandles = update x.hart_phandles x.hart x.phandle;
      hart_mask = bit_or x.hart_mask (2 ^ x.hart);
      hls_inits = x.hart ∷ x.hls_inits;
    }
    else x

unfoldable pub hart_done : List Node → Cmd (Scan HartScan) (Unit {0})
hart_done node s =
    let x = s.extra in
    (do
      (if x.cpu == length node then kassert (ltb x.hart (2 ^ 31)) else pure tt)
      (if x.controller == length node && not (x.cpu == 0)
          then kassert (ltb 0 x.phandle)
            >> kassert (x.cells == 1)
            >> kassert (ltb x.hart (2 ^ 31))
            >> on_extra add_hart
          else pure tt))
      s

unfoldable pub hart_close : List Node → Cmd (Scan HartScan) Bool
hart_close node = do
  on_extra (λ x. if x.cpu == length node then record x { cpu = 0 } else x)
  on_extra (λ x. if x.controller == length node then record x { controller = 0 } else x)
  pure false

abbrev pub hart_callbacks : Callbacks HartScan
hart_callbacks = record {
  on_open = hart_open;
  on_prop = hart_prop;
  on_done = hart_done;
  on_close = hart_close;
}

unfoldable pub query_harts : (fdt mhartid : ℕ) → Cmd (Scan HartScan) (Unit {0})
query_harts fdt mhartid = do
  on_extra (λ x. record x { cpu = 0; hart = 0; controller = 0; cells = 0; phandle = 0 })
  fdt_scan fdt hart_callbacks
  λ s. kassert (not (s.extra.hart_mask / 2 ^ (mhartid % 64) == 0)) s
