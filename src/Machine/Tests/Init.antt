-- ===== src/Machine/Tests/Init.antt =====
-- The theorems on the start of a hart, with 64 sources of interrupts.
use boom_stop.Base.{ℕ, ◌-◌, ◌%◌, ◌^◌, ◌<◌, ◌≡◌, ◌≢◌, arith}
use boom_stop.Machine.Trap.{bit}
use boom_stop.Machine.Init.{Start, enter_supervisor_mode, hart_plic_init}
use boom_stop.Machine.Init.Supervisor.{entered, enter_supervisor_mode-entered}
use boom_stop.Machine.Init.Sources.{enable_word, hart_plic_init-misses_last}

-- The interrupt controller is at 0xc000000, with the second context for supervisor mode.
abbrev first_hart : Start
first_hart = record {
  misa = 0x14112d;
  hartid = 0;
  mstatus = 0x6088;
  scounteren = 0;
  mcounteren = 0;
  mie = 0;
  mip = 0;
  sptbr = 0;
  mideleg = 0;
  medeleg = 0;
  mepc = 0;
  fcsr = 0;
  fregs = λ i. 1;
  pmpaddr0 = 0;
  pmpcfg0 = 0;
  mem_size = 0x10000000;
  hart_mask = 1;
  disabled_hart_mask = 0;
  plic_ndevs = 64;
  plic_priorities = 0xc000000;
  ipi = λ hart. 1;
  timecmp = λ hart. 0;
  plic_m_thresh = λ hart. 0xc200000;
  plic_s_thresh = λ hart. 0xc201000;
  plic_s_ie = λ hart. 0xc002080;
  device = λ addr. 0;
}

enter_supervisor_mode-entered_example :
    (((enter_supervisor_mode 0x80200000 0 0x82000000 first_hart).start.mepc ≡ 0x80200000)
      × ((enter_supervisor_mode 0x80200000 0 0x82000000 first_hart).arg0 ≡ 0)
      × ((enter_supervisor_mode 0x80200000 0 0x82000000 first_hart).arg1 ≡ 0x82000000))
    × ((i : ℕ)
        → i < 64
        → bit i ((enter_supervisor_mode 0x80200000 0 0x82000000 first_hart).start.mstatus)
          ≡ entered first_hart.mstatus i)
enter_supervisor_mode-entered_example =
    enter_supervisor_mode-entered 0x80200000 0 0x82000000 first_hart (omega arith)

hart_plic_init-misses_last_example :
    ((64 ≢ first_hart.plic_ndevs
        → (hart_plic_init first_hart).device (enable_word first_hart 64) ≡ 2 ^ 64 - 1)
      × (first_hart.plic_ndevs % 64 ≢ 0
          → (hart_plic_init first_hart).device (enable_word first_hart 64) ≡ 2 ^ 64 - 1))
    × (64 ≡ first_hart.plic_ndevs
        → first_hart.plic_ndevs % 64 ≡ 0
        → (hart_plic_init first_hart).device (enable_word first_hart 64)
          ≡ first_hart.device (enable_word first_hart 64))
hart_plic_init-misses_last_example =
    hart_plic_init-misses_last 64 first_hart (omega arith) (omega arith) (omega arith)
      (λ e. omega arith) (λ e. omega arith) (λ e. omega arith)
