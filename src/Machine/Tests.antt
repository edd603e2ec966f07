-- ===== src/Machine/Tests.antt =====
-- The theorems on products and quotients, at concrete numbers.
mod Fdt
mod Emulation
mod Htif
mod Init
use boom_stop.Base.{
  ℕ, ◌+◌, ◌*◌, ◌<◌, ◌≡◌, refl, true, false, some, ◌&&◌, ◌⊎◌, is_neg, ltb, leb, update, u64, sub64,
  neg, arith,
}
use boom_stop.Machine.Muldiv.{Regs, Library, emulate_mul_div}
use boom_stop.Machine.Muldiv.Divide.{magnitude, emulate_mul_div-divides}
use boom_stop.Base.{◌==◌, if◌then◌else◌}
use boom_stop.Base.Cmd.{Returns}
use boom_stop.Machine.Trap.{HartState, bit}
use boom_stop.Base.{not}
use boom_stop.Machine.Trap.{send_ipi_many, ipi_soft}
use boom_stop.Machine.Trap.Sent.{Sent, asked, send_ipi_many-Sent}
use boom_stop.Machine.Trap.Fault.{trap_from_machine_mode, cause_fetch_page_fault}
use boom_stop.Machine.Trap.Redirect.{handed_on, trap_from_machine_mode-handed_on}
use boom_stop.Machine.Misaligned.{
  Hart, Access, decode_store, decode_load, insn_len, stored_value, misaligned_load_trap,
  misaligned_store_trap,
}
use boom_stop.Machine.Misaligned.Signs.{loaded_value}
use boom_stop.Machine.Misaligned.Round.{misaligned_load-store}

-- div x12, x10, x11 and rem x13, x10, x11, of -17 and 5, and a library that gives 0 for a divisor of 0.
abbrev zeros : Library
zeros = record { div_zero = λ a. 0; divu_zero = λ a. 0; rem_zero = λ a. 0; remu_zero = λ a. 0 }

abbrev minus_17_and_5 : Regs
minus_17_and_5 = λ i. if i == 10 then neg 17 else 5

emulate_mul_div-divides_example :
    (q : ℕ) × (r : ℕ) × (emulate_mul_div zeros 0x2b54633 minus_17_and_5
      ≡ some (update minus_17_and_5 12 q))
    × (emulate_mul_div zeros 0x2b566b3 minus_17_and_5 ≡ some (update minus_17_and_5 13 r))
    × (u64 (q * 5 + r) ≡ neg 17)
    × (magnitude r < magnitude 5)
    × ((r ≡ 0) ⊎ (is_neg r ≡ is_neg (neg 17)))
emulate_mul_div-divides_example =
    emulate_mul_div-divides zeros 0x2b54633 0x2b566b3 10 11 minus_17_and_5 refl refl (refl, refl)
      (refl, refl) (omega arith) (omega arith) (λ e. omega arith)

-- sd x11, 0(x10) and ld x12, 0(x10), with x11 negative.
abbrev odd_hart : Hart
odd_hart = record { regs = λ _. neg 5; fregs = λ _. 0; byte = λ _. 1; mepc = 0x80000000 }

abbrev store_double : Access
store_double = record { len = 8; signed = false; fp = false; reg = 11 }

abbrev load_double : Access
load_double = record { len = 8; signed = true; fp = false; reg = 12 }

misaligned_load-store_example :
    (h1 : Hart) × (h2 : Hart) × (misaligned_store_trap 0x00b53023 0x1003 odd_hart ≡ some h1)
    × (misaligned_load_trap (λ x. x) 0x00053603 0x1003 h1 ≡ some h2)
    × (h2.regs
        ≡ update odd_hart.regs 12 (loaded_value 0x00053603 8 (stored_value store_double odd_hart)))
    × (h2.fregs ≡ odd_hart.fregs)
    × ((c : ℕ) → (leb 0x1003 c && ltb c (0x1003 + 8)) ≡ false → h2.byte c ≡ odd_hart.byte c)
    × (h2.mepc ≡ u64 (u64 (odd_hart.mepc + insn_len 0x00b53023) + insn_len 0x00053603))
unfolding decode_store decode_load
misaligned_load-store_example =
    misaligned_load-store (λ x. x) 0x00b53023 0x00053603 0x1003 odd_hart store_double load_double
      refl refl refl refl (omega arith)

-- A load that reads an instruction for the emulation, with MPRV and MXR set, on a page that is not
-- there; the program had interrupts enabled.
abbrev fetching : HartState
fetching = record {
  regs = λ i. if i == 11 then 0xa0000 else if i == 12 then 0x10000 else if i == 13 then 0x2 else 0;
  hartid = 0;
  mstatus = 0xa1800;
  mcause = 13;
  mepc = 0x80000400;
  mbadaddr = 0x10000;
  mip = 0;
  mie = 0;
  stvec = 0x200000;
  sepc = 0;
  scause = 0;
  sbadaddr = 0;
  hart_mask = 1;
  disabled_hart_mask = 0;
  user_word = λ _. 0;
  mipi_pending = λ _. 0;
  ipi = λ _. 0;
  timecmp = λ _. 0;
}

trap_from_machine_mode-handed_on_example :
    Returns
      (λ _ k.
        (k.sepc ≡ fetching.regs 12)
        × (k.scause ≡ cause_fetch_page_fault)
        × (k.sbadaddr ≡ fetching.mbadaddr)
        × (k.mepc ≡ fetching.stvec)
        × ((i : ℕ) → i < 64 → bit i k.mstatus ≡ handed_on (fetching.regs 13) i))
      (trap_from_machine_mode fetching)
trap_from_machine_mode-handed_on_example =
    trap_from_machine_mode-handed_on fetching (omega arith) refl refl refl

-- Harts 0 to 3 are there, hart 1 is disabled, and the mask at 0x9000 asks for harts 1, 2 and 5.
abbrev four_harts : HartState
four_harts = record fetching {
  hart_mask = 0xf;
  disabled_hart_mask = 0x2;
  user_word = λ a. if a == 0x9000 then 0x26 else 0;
}

send_ipi_many-Sent_example :
    Returns
      (λ _ k.
        (j : ℕ)
        → j < 64
        → Sent ipi_soft
            (asked 0x9000 j four_harts && not (bit j four_harts.disabled_hart_mask))
            j
            four_harts
            k)
      (send_ipi_many (λ h. h) 0 0x9000 ipi_soft four_harts)
send_ipi_many-Sent_example = send_ipi_many-Sent (λ h. h) 0 0x9000 four_harts
