-- ===== src/Machine/Fdt/Interrupts.antt =====
-- The interrupt controllers in machine/fdt.c: `query_clint`, `query_plic` and `filter_plic`. A hart's
-- local storage is a record of functions of the hart; what is printed is left out.
use boom_stop.Base.{
  ℕ, zero, suc, ◌+◌, ◌-◌, ◌*◌, ◌/◌, ◌%◌, ◌^◌, Bool, true, false, not, ◌&&◌, List, Option, none,
  some, update, find_from, u64, ltb, ◌==◌, if◌then◌else◌,
}
use boom_stop.Base.Cmd.{Cmd, ok, panic, pure, kassert, modify, ◌>>◌}
use boom_stop.Util.{Mem}
use boom_stop.Machine.Fdt.{Node, Prop, Scan, is_text, token, store32, bswap, fdt_scan}
use boom_stop.Machine.Fdt.Fields.{fdt_get_value, fdt_string_list_index, rounds}
use boom_stop.Machine.Fdt.Memory.{on_extra, no_close}
use boom_stop.Machine.Fdt.Harts.{max_harts, with_address}
use boom_stop.Machine.Fdt.Texts.{
  compatible_text, reg_text, interrupts_extended_text, clint_text, plic_text, ndev_text,
}

-- clint_scan and plic_scan, which start with the same fields, with the globals and the fields of
-- `hls_t` by hart. `irq_m_ext` and `irq_s_ext` are the interrupts of machine and supervisor mode.
pub record Wiring : Type 0 where
  pub compat : Bool
  pub reg : ℕ
  pub int_value : ℕ
  pub int_len : ℕ
  pub done : Bool
  pub ndev : ℕ
  pub hart_phandles : ℕ → ℕ
  pub mtime : ℕ
  pub ipi : ℕ → ℕ
  pub timecmp : ℕ → ℕ
  pub plic_priorities : ℕ
  pub plic_ndevs : ℕ
  pub plic_m_ie : ℕ → ℕ
  pub plic_m_thresh : ℕ → ℕ
  pub plic_s_ie : ℕ → ℕ
  pub plic_s_thresh : ℕ → ℕ

abbrev pub irq_s_ext : ℕ
irq_s_ext = 9

abbrev pub irq_m_ext : ℕ
irq_m_ext = 11

-- `clint_open` and `plic_open`
unfoldable pub wiring_open : List Node → Cmd (Scan Wiring) (Unit {0})
wiring_open node = on_extra λ x. record x { compat = false; reg = 0; int_value = 0 }

-- fdt_string_list_index(prop, text) >= 0, given to `k`.
abbrev pub with_listed :
    {S : Type 0} → Prop → List ℕ → (Bool → Cmd (Scan S) (Unit {0})) → Cmd (Scan S) (Unit {0})
with_listed p text k s = elim (fdt_string_list_index p text s.mem) [
  | ok found m ↦ k (elim found [ none ↦ false | some i ↦ true ]) s
  | panic ↦ panic
]

-- The properties that both look for, and what is done at any other.
abbrev wiring_prop :
    (device : List ℕ) → Cmd (Scan Wiring) (Unit {0}) → Prop → Cmd (Scan Wiring) (Unit {0})
wiring_prop device other p s =
    let rest =
      if is_text s.mem p.name reg_text
      then with_address p (λ reg. on_extra (λ x. record x { reg = reg }))
      else if is_text s.mem p.name interrupts_extended_text
      then on_extra (λ x. record x { int_value = p.value; int_len = p.len })
      else other in
    (if is_text s.mem p.name compatible_text
        then with_listed p device
            (λ found. if found then on_extra (λ x. record x { compat = true }) else rest)
        else rest)
      s

unfoldable pub clint_prop : Prop → Cmd (Scan Wiring) (Unit {0})
clint_prop p = wiring_prop clint_text (pure tt) p

unfoldable pub plic_prop : Prop → Cmd (Scan Wiring) (Unit {0})
plic_prop p =
    wiring_prop plic_text
      (λ s.
        (if is_text s.mem p.name ndev_text
            then on_extra (λ x. record x { ndev = fdt_get_value s.mem p 0 })
            else pure tt)
          s)
      p

-- The hart with a handle, if there is one.
unfoldable pub hart_of : (hart_phandles : ℕ → ℕ) (phandle : ℕ) → Option ℕ
hart_of hart_phandles phandle = find_from (λ h. hart_phandles h == phandle) max_harts 0

-- The loop of `clint_done`, over the entries from number `index` on.
unfoldable pub clint_loop : Mem → (count index value : ℕ) → Wiring → Wiring
clint_loop m zero index value x = x
clint_loop m (suc count) index value x =
    clint_loop m count (index + 1) (value + 16) (elim (hart_of x.hart_phandles (token m value)) [
      | none ↦ x
      | some hart ↦ record x {
        ipi = update x.ipi hart (u64 (x.reg + index * 4));
        timecmp = update x.timecmp hart (u64 (x.reg + 0x4000 + index * 8));
      }
    ])

unfoldable pub clint_done : List Node → Cmd (Scan Wiring) (Unit {0})
clint_done node s =
    let x = s.extra in
    (if not x.compat then pure tt else do
      kassert (not (x.reg == 0))
      kassert (not (x.int_value == 0) && x.int_len % 16 == 0)
      kassert (not x.done)
      on_extra (λ y. record y { done = true; mtime = u64 (y.reg + 0xbff8) })
      on_extra (clint_loop s.mem (rounds x.int_len / 16) 0 x.int_value))
      s

unfoldable pub query_clint : (fdt : ℕ) → Cmd (Scan Wiring) (Unit {0})
query_clint fdt = do
  on_extra (λ x. record x { done = false })
  fdt_scan fdt (record {
    on_open = wiring_open;
    on_prop = clint_prop;
    on_done = clint_done;
    on_close = no_close;
  })
  λ s. kassert s.extra.done s

-- The registers of a hart at an entry for its interrupt `cpu_int`.
unfoldable pub plic_wire : (cpu_int index hart : ℕ) → Wiring → Wiring
plic_wire cpu_int index hart x =
    let ie = u64 (x.reg + 0x2000 + 0x80 * index) in
    let thresh = u64 (x.reg + 0x200000 + 0x1000 * index) in
    if cpu_int == irq_m_ext
    then record x {
      plic_m_ie = update x.plic_m_ie hart ie;
      plic_m_thresh = update x.plic_m_thresh hart thresh;
    }
    else if cpu_int == irq_s_ext
    then record x {
      plic_s_ie = update x.plic_s_ie hart ie;
      plic_s_thresh = update x.plic_s_thresh hart thresh;
    }
    else x

-- The loop of `plic_done`.
unfoldable pub plic_loop : Mem → (count index value : ℕ) → Wiring → Wiring
plic_loop m zero index value x = x
plic_loop m (suc count) index value x =
    plic_loop m count (index + 1) (value + 8) (elim (hart_of x.hart_phandles (token m value)) [
      | none ↦ x
      | some hart ↦ plic_wire (token m (value + 4)) index hart x
    ])

unfoldable pub plic_done : List Node → Cmd (Scan Wiring) (Unit {0})
plic_done node s =
    let x = s.extra in
    (if not x.compat then pure tt else do
      kassert (not (x.reg == 0))
      kassert (not (x.int_value == 0) && x.int_len % 8 == 0)
      kassert (ltb x.ndev 1024)
      kassert (not x.done)
      on_extra (λ y. record y { done = true; plic_priorities = y.reg; plic_ndevs = y.ndev })
      on_extra (plic_loop s.mem (rounds x.int_len / 8) 0 x.int_value))
      s

unfoldable pub query_plic : (fdt : ℕ) → Cmd (Scan Wiring) (Unit {0})
query_plic fdt = do
  on_extra (λ x. record x { done = false })
  fdt_scan fdt (record {
    on_open = wiring_open;
    on_prop = plic_prop;
    on_done = plic_done;
    on_close = no_close;
  })

-- The loop of `plic_redact`, over as many entries as are not past the end.
unfoldable pub redact_loop : (count value : ℕ) → Mem → Mem
redact_loop zero value m = m
redact_loop (suc count) value m =
    redact_loop count (value + 8)
      (if token m (value + 4) == irq_m_ext then store32 m (value + 4) (bswap (2 ^ 32 - 1)) else m)

unfoldable pub plic_redact : List Node → Cmd (Scan Wiring) (Unit {0})
plic_redact node s =
    let x = s.extra in
    (if not x.compat then pure tt else do
      on_extra (λ y. record y { done = true })
      modify
          (λ t. record t { mem = redact_loop ((rounds x.int_len / 4 + 1) / 2) x.int_value t.mem }))
      s

unfoldable pub filter_plic : (fdt : ℕ) → Cmd (Scan Wiring) (Unit {0})
filter_plic fdt = do
  on_extra (λ x. record x { done = false })
  fdt_scan fdt (record {
    on_open = wiring_open;
    on_prop = plic_prop;
    on_done = plic_redact;
    on_close = no_close;
  })
