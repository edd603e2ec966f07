-- ===== src/Machine/Fdt/Filters.antt =====
-- `filter_compat`, `query_chosen` and `filter_harts` in machine/fdt.c. A pointer to a node is its depth
-- in the chain, 0 for a null pointer; what is printed is left out.
use boom_stop.Base.{
  ℕ, ◌+◌, ◌-◌, ◌%◌, ◌^◌, Bool, true, false, not, ◌&&◌, ◌||◌, List, [], ◌∷◌, length, update, bit_or,
  u32, to_int, ltb, ◌==◌, if◌then◌else◌,
}
use boom_stop.Base.Cmd.{Cmd, pure, kassert, modify, ◌>>◌}
use boom_stop.Util.{Mem}
use boom_stop.Machine.Fdt.{
  Node, Prop, Scan, Callbacks, is_text, store32, bswap, fdt_scan, first_node,
}
use boom_stop.Machine.Fdt.Memory.{on_extra, no_close}
use boom_stop.Machine.Fdt.Harts.{with_address}
use boom_stop.Machine.Fdt.Interrupts.{with_listed}
use boom_stop.Machine.Fdt.Texts.{
  compatible_text, chosen_text, kernel_start_text, kernel_end_text, device_type_text, cpu_text,
  reg_text, status_text, mmu_type_text, okay_text, sv39_text, sv48_text, masked_text,
}

-- compat_scan, but for the text that it looks for.
pub record CompatScan : Type 0 where
  pub depth : ℕ
  pub kill : ℕ

abbrev no_done : {S : Type 0} → List Node → Cmd (Scan S) (Unit {0})
no_done node = pure tt

unfoldable pub compat_open : List Node → Cmd (Scan CompatScan) (Unit {0})
compat_open node = on_extra λ x. record x { depth = x.depth + 1 }

unfoldable pub compat_prop : (compat : List ℕ) → Prop → Cmd (Scan CompatScan) (Unit {0})
compat_prop compat p s =
    (if is_text s.mem p.name compatible_text
        then with_listed p compat (λ found.
          if found
          then on_extra (λ x. if ltb x.depth x.kill then record x { kill = x.depth } else x)
          else pure tt)
        else pure tt)
      s

unfoldable pub compat_close : List Node → Cmd (Scan CompatScan) Bool
compat_close node s =
    let x = s.extra in
    (if x.kill == x.depth
        then on_extra (λ y. record y { depth = y.depth - 1; kill = 999 }) >> pure true
        else on_extra (λ y. record y { depth = y.depth - 1 }) >> pure false)
      s

abbrev pub compat_callbacks : List ℕ → Callbacks CompatScan
compat_callbacks compat = record {
  on_open = compat_open;
  on_prop = compat_prop compat;
  on_done = no_done;
  on_close = compat_close;
}

unfoldable pub filter_compat : (fdt : ℕ) (compat : List ℕ) → Cmd (Scan CompatScan) (Unit {0})
filter_compat fdt compat = do
  on_extra (λ x. record x { depth = 0; kill = 999 })
  fdt_scan fdt (compat_callbacks compat)

-- chosen_scan
pub record ChosenScan : Type 0 where
  pub chosen : ℕ
  pub kernel_start : ℕ
  pub kernel_end : ℕ

unfoldable pub chosen_open : List Node → Cmd (Scan ChosenScan) (Unit {0})
chosen_open node s =
    on_extra
      (λ x.
        if is_text s.mem (first_node node).name chosen_text
        then record x { chosen = length node }
        else x)
      s

unfoldable pub chosen_close : List Node → Cmd (Scan ChosenScan) Bool
chosen_close node = do
  on_extra (λ x. if x.chosen == length node then record x { chosen = 0 } else x)
  pure false

unfoldable pub chosen_prop : Prop → Cmd (Scan ChosenScan) (Unit {0})
chosen_prop p s =
    (if s.extra.chosen == 0
        then pure tt
        else if is_text s.mem p.name kernel_start_text
        then with_address p (λ val. on_extra (λ x. record x { kernel_start = val }))
        else if is_text s.mem p.name kernel_end_text
        then with_address p (λ val. on_extra (λ x. record x { kernel_end = val }))
        else pure tt)
      s

abbrev pub chosen_callbacks : Callbacks ChosenScan
chosen_callbacks = record {
  on_open = chosen_open;
  on_prop = chosen_prop;
  on_done = no_done;
  on_close = chosen_close;
}

-- With the globals `kernel_start` and `kernel_end` for the fields of those names at the end.
unfoldable pub query_chosen : (fdt : ℕ) → Cmd (Scan ChosenScan) (Unit {0})
query_chosen fdt = do
  on_extra (λ x. record { chosen = 0; kernel_start = 0; kernel_end = 0 })
  fdt_scan fdt chosen_callbacks

-- hart_filter, with the mask that it points to.
pub record HartFilter : Type 0 where
  pub compat : Bool
  pub hart : ℕ
  pub status : ℕ
  pub mmu_type : ℕ
  pub disabled_hart_mask : ℕ

unfoldable pub hart_filter_open : List Node → Cmd (Scan HartFilter) (Unit {0})
hart_filter_open node =
    on_extra λ x. record x { status = 0; mmu_type = 0; compat = false; hart = 2 ^ 32 - 1 }

unfoldable pub hart_filter_prop : Prop → Cmd (Scan HartFilter) (Unit {0})
hart_filter_prop p s =
    (if is_text s.mem p.name device_type_text && is_text s.mem p.value cpu_text
        then on_extra (λ x. record x { compat = true })
        else if is_text s.mem p.name reg_text
        then with_address p (λ reg. on_extra (λ x. record x { hart = u32 reg }))
        else if is_text s.mem p.name status_text
        then on_extra (λ x. record x { status = p.value })
        else if is_text s.mem p.name mmu_type_text
        then on_extra (λ x. record x { mmu_type = p.value })
        else pure tt)
      s

unfoldable pub hart_filter_mask : Mem → HartFilter → Bool
hart_filter_mask m filter =
    filter.mmu_type == 0
    || not (is_text m filter.status okay_text)
    || not (is_text m filter.mmu_type sv39_text || is_text m filter.mmu_type sv48_text)

-- strcpy(p, text) of a text that is given, its zero included.
abbrev pub put_text : Mem → ℕ → List ℕ → Mem
put_text m p [] = update m p 0
put_text m p (x ∷ xs) = put_text (update m p x) (p + 1) xs

-- The status of a hart becomes "masked", and the length of the property that of the new text.
abbrev pub mask_status : Mem → (status : ℕ) → Mem
mask_status m status = store32 (put_text m status masked_text) (status - 8) (bswap 7)

-- 1 << hart is an `int`, of which the machine uses the low five bits of `hart`.
unfoldable pub hart_filter_done : List Node → Cmd (Scan HartFilter) (Unit {0})
unfolding hart_filter_mask
hart_filter_done node s =
    let x = s.extra in
    (if not x.compat then pure tt else do
      kassert (not (x.status == 0))
      kassert (ltb x.hart (2 ^ 31))
      if hart_filter_mask s.mem x
          then modify (λ t. record t {
            mem = mask_status t.mem x.status;
            extra = record x {
              disabled_hart_mask = bit_or x.disabled_hart_mask (to_int (2 ^ (x.hart % 32)));
            };
          })
          else pure tt)
      s

abbrev pub hart_filter_callbacks : Callbacks HartFilter
hart_filter_callbacks = record {
  on_open = hart_filter_open;
  on_prop = hart_filter_prop;
  on_done = hart_filter_done;
  on_close = no_close;
}

unfoldable pub filter_harts : (fdt : ℕ) → Cmd (Scan HartFilter) (Unit {0})
filter_harts fdt = do
  on_extra (λ x. record x { disabled_hart_mask = 0 })
  fdt_scan fdt hart_filter_callbacks
