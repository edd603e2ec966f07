-- ===== src/Machine/Init.antt =====
-- machine/minit.c: the control registers and the devices of a hart when it starts, for a machine with
-- registers for floating point. `Start` has the control registers of the hart that runs, the variables,
-- of each hart what its `hls_t` points to, and the registers of the interrupt controller by address. Which
-- bits of `mideleg` and `medeleg` the hardware has is a parameter, and so are the queries of the
-- device tree (Machine/Fdt), which set the variables. An assertion that fails is a panic.
pub mod Supervisor
pub mod Sources
use boom_stop.Base.{
  ℕ, zero, suc, ◌+◌, ◌-◌, ◌*◌, ◌/◌, ◌%◌, ◌^◌, Bool, true, false, not, ◌&&◌, ◌||◌, update, bit_and,
  bit_or, u64, ◌==◌, if◌then◌else◌,
}
use boom_stop.Base.Cmd.{Cmd, ok, panic, pure, kassert, modify, ◌>>=◌, ◌>>◌}
use boom_stop.Machine.Trap.{bit}
use boom_stop.Machine.Trap.Fault.{mstatus_mpp}
use boom_stop.Machine.Fdt.Harts.{max_harts}

pub record Start : Type 0 where
  pub misa : ℕ
  pub hartid : ℕ
  pub mstatus : ℕ
  pub scounteren : ℕ
  pub mcounteren : ℕ
  pub mie : ℕ
  pub mip : ℕ
  pub sptbr : ℕ
  pub mideleg : ℕ
  pub medeleg : ℕ
  pub mepc : ℕ
  pub fcsr : ℕ
  pub fregs : ℕ → ℕ
  pub pmpaddr0 : ℕ
  pub pmpcfg0 : ℕ
  pub mem_size : ℕ
  pub hart_mask : ℕ
  pub disabled_hart_mask : ℕ
  pub plic_ndevs : ℕ
  pub plic_priorities : ℕ
  pub ipi : ℕ → ℕ
  pub timecmp : ℕ → ℕ
  pub plic_m_thresh : ℕ → ℕ
  pub plic_s_thresh : ℕ → ℕ
  pub plic_s_ie : ℕ → ℕ
  pub device : ℕ → ℕ

abbrev pub mstatus_fs : ℕ
mstatus_fs = 0x6000

abbrev pub mstatus_mpie : ℕ
mstatus_mpie = 0x80

abbrev pub mip_msip : ℕ
mip_msip = 8

-- `ext` by its place in the alphabet, from 0.
abbrev pub supports_extension : (ext : ℕ) → Start → Bool
supports_extension ext s = bit ext s.misa

abbrev pub has_fp : Start → Bool
has_fp s = supports_extension 3 s || supports_extension 5 s

-- D and F are 3 and 5, S is 18 and U is 20.
unfoldable pub mstatus_init : Start → Start
mstatus_init s =
    let s1 = if has_fp s then record s { mstatus = mstatus_fs } else s in
    let s2 = if supports_extension 18 s then record s1 { scounteren = 2 ^ 64 - 1 } else s1 in
    let s3 = if supports_extension 20 s then record s2 { mcounteren = 2 ^ 64 - 1 } else s2 in
    let s4 = record s3 { mie = mip_msip } in
    if supports_extension 18 s then record s4 { sptbr = 0 } else s4

-- MIP_SSIP | MIP_STIP | MIP_SEIP
abbrev pub delegated_interrupts : ℕ
delegated_interrupts = 0x222

-- The exceptions 0, 3, 8, 12, 13 and 15.
abbrev pub delegated_exceptions : ℕ
delegated_exceptions = 0xb109

-- The bits of the two registers that can be set.
pub record Delegable : Type 0 where
  pub mideleg_bits : ℕ
  pub medeleg_bits : ℕ

unfoldable pub delegate_traps : Delegable → Cmd Start (Unit {0})
delegate_traps bits s =
    (if not (supports_extension 18 s) then pure tt else do
      modify (λ t. record t {
        mideleg = bit_and delegated_interrupts bits.mideleg_bits;
        medeleg = bit_and delegated_exceptions bits.medeleg_bits;
      })
      λ t. kassert (t.mideleg == delegated_interrupts) t
      λ t. kassert (t.medeleg == delegated_exceptions) t)
      s

unfoldable pub fp_init : Cmd Start (Unit {0})
fp_init s =
    (if not (has_fp s) then pure tt else do
      kassert (not (bit_and s.mstatus mstatus_fs == 0))
      modify (λ t. record t { fregs = λ i. 0; fcsr = 0 }))
      s

unfoldable pub memory_init : Start → Start
memory_init s = record s { mem_size = s.mem_size / 2 ^ 21 * 2 ^ 21 }

-- PMP_NAPOT | PMP_R | PMP_W | PMP_X, where there are PMPs.
unfoldable pub setup_pmp : (has_pmp : Bool) → Start → Start
setup_pmp has_pmp s = if has_pmp then record s { pmpaddr0 = 2 ^ 64 - 1; pmpcfg0 = 0x1f } else s

unfoldable pub hart_init : Delegable → (has_pmp : Bool) → Cmd Start (Unit {0})
hart_init bits has_pmp = do
  modify mstatus_init
  fp_init
  delegate_traps bits
  modify (setup_pmp has_pmp)

abbrev pub set_device : (addr value : ℕ) → Start → Start
set_device addr value s = record s { device = update s.device addr value }

-- for (i = 1; i <= plic_ndevs; i++) plic_priorities[i] = 1
unfoldable pub priorities_from : (left i : ℕ) → Start → Start
priorities_from zero i s = s
priorities_from (suc left) i s =
    priorities_from left (i + 1) (set_device (s.plic_priorities + 4 * i) 1 s)

unfoldable pub plic_init : Start → Start
plic_init s = priorities_from s.plic_ndevs 1 s

-- The loop over the words of the enable bits of supervisor mode, where there is one.
unfoldable pub enable_from : (left i : ℕ) → Start → Start
enable_from zero i s = s
enable_from (suc left) i s =
    let ie = s.plic_s_ie s.hartid in
    enable_from left (i + 1) (if ie == 0 then s else set_device (ie + 8 * i) (2 ^ 64 - 1) s)

abbrev pub ie_words : (plic_ndevs : ℕ) → ℕ
ie_words plic_ndevs = u64 (plic_ndevs + 64 - 1) / 64

abbrev pub clear_pending : Start → Start
clear_pending s = record s {
  ipi = update s.ipi s.hartid 0;
  timecmp = update s.timecmp s.hartid (2 ^ 64 - 1);
  mip = 0;
}

unfoldable pub hart_plic_init : Start → Start
hart_plic_init s =
    let enabled = enable_from (ie_words s.plic_ndevs) 0 (clear_pending s) in
    let machine = set_device (s.plic_m_thresh s.hartid) 1 enabled in
    let supervisor =
      if s.plic_s_thresh s.hartid == 0
      then machine
      else set_device (s.plic_s_thresh s.hartid) 0 machine in
    if s.plic_ndevs == 0 then clear_pending s else supervisor

-- The loop over the harts from `hart` on.
unfoldable pub wake_from : (left hart : ℕ) → Start → Start
wake_from zero hart s = s
wake_from (suc left) hart s = wake_from left (hart + 1) (
    if not (bit hart s.disabled_hart_mask) && bit hart s.hart_mask
    then record s { ipi = update s.ipi hart 1 }
    else s)

unfoldable pub wake_harts : Start → Start
wake_harts s = wake_from max_harts 0 s

-- which & ~(which - 1)
abbrev pub lowest_bit : (which : ℕ) → ℕ
lowest_bit which = bit_and which (2 ^ 64 - 1 - (which - 1))

-- INSERT_FIELD(val, which, fieldval)
abbrev pub insert_field : (val which fieldval : ℕ) → ℕ
insert_field val which fieldval =
    bit_or (bit_and val (2 ^ 64 - 1 - which)) (u64 (fieldval * lowest_bit which))

-- What the hart goes on with: the address and the two arguments.
pub record Entry : Type 0 where
  pub start : Start
  pub fn : ℕ
  pub arg0 : ℕ
  pub arg1 : ℕ

-- PRV_S is 1.
abbrev pub supervisor_status : (mstatus : ℕ) → ℕ
supervisor_status mstatus = insert_field (insert_field mstatus mstatus_mpp 1) mstatus_mpie 0

-- `mret` goes on at `mepc`. Where the stack is kept is left out.
unfoldable pub enter_supervisor_mode : (fn arg0 arg1 : ℕ) → Start → Entry
enter_supervisor_mode fn arg0 arg1 s = record {
  start = record s { mstatus = supervisor_status s.mstatus; mepc = fn };
  fn = fn;
  arg0 = arg0;
  arg1 = arg1;
}

-- `fn` is called, in machine mode still.
unfoldable pub enter_machine_mode : (fn arg0 arg1 : ℕ) → Start → Entry
enter_machine_mode fn arg0 arg1 s = record {
  start = record s { mstatus = insert_field s.mstatus mstatus_mpie 0 };
  fn = fn;
  arg0 = arg0;
  arg1 = arg1;
}

unfoldable pub init_other_hart : Delegable → (has_pmp : Bool) → Cmd Start (Unit {0})
init_other_hart bits has_pmp = do hart_init bits has_pmp; modify hart_plic_init

-- The registers that `hls_init` takes away from a hart until the queries of the device tree set them.
abbrev pub hls_init : (hart : ℕ) → Start → Start
hls_init hart s = record s {
  plic_m_thresh = update s.plic_m_thresh hart 0;
  plic_s_thresh = update s.plic_s_thresh hart 0;
  plic_s_ie = update s.plic_s_ie hart 0;
}

-- The queries come in two groups, those of the consoles in front of `hart_init`, and the others, from
-- `query_finisher` to `query_chosen`. `boot_loader` follows.
unfoldable pub init_first_hart :
    Delegable → (has_pmp : Bool) (consoles devices : Cmd Start (Unit {0})) → Cmd Start (Unit {0})
init_first_hart bits has_pmp consoles devices = do
  consoles
  hart_init bits has_pmp
  modify (hls_init 0)
  devices
  modify wake_harts
  modify plic_init
  modify hart_plic_init
  modify memory_init
