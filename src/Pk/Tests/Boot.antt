-- ===== src/Pk/Tests/Boot.antt =====
-- The theorems on traps, on the loader and on the start of the program, at concrete states.
use boom_stop.Base.{ℕ, [], ◌+◌, ◌*◌, ◌%◌, ◌≤◌, ◌<◌, ◌≡◌, refl, false, arith}
use boom_stop.Base.Cmd.{Returns, halt, panic}
use boom_stop.Pk.Mmap.Walk.{pte_create}
use boom_stop.Pk.Mmap.Prot.{valid_user_range, prot_to_type, type_of}
use boom_stop.Pk.Mmap.Fault.Demand.{PagedIn}
use boom_stop.Pk.Syscall.Table.{Program}
use boom_stop.Pk.Trap.{Trapframe, Machine, handle_trap}
use boom_stop.Pk.Trap.Dispatch.{handle_trap_panics}
use boom_stop.Pk.Trap.Refill.{Placed, Pending, store, handle_trap-PagedIn}
use boom_stop.Pk.Start.{stack_pointer}
use boom_stop.Pk.Start.Stack.{stack_pointer-fits}
use boom_stop.Pk.Tests.{seven}
use boom_stop.Pk.Tests.Space.{kernel, page_16}

abbrev program : Program
program = record { string = λ a. record { addr = a; size = 1 }; vectors = λ a n. [] }

abbrev machine : Machine
machine = record { kernel = kernel; sip = 0 }

abbrev frame : (cause : ℕ) → Trapframe
frame cause = record {
  gpr = λ i. i;
  status = 0;
  epc = 0x10100;
  badvaddr = 0x10010;
  cause = cause;
  insn = 0;
}

placed : Placed kernel
placed = record { below = omega arith; aligned = omega arith; small = omega arith }

pending : Pending seven 0x10010 12416 kernel
unfolding valid_user_range
pending = record {
  at = page_16;
  used = λ e. omega arith;
  unfilled = refl;
  in_range = refl;
  reads = λ f e. cc;
}

handle_trap-PagedIn_example :
    Returns
      (λ tf m'.
        (tf ≡ frame 15)
        × PagedIn seven 0x10000 12416 kernel m'.kernel
        × (m'.kernel.vm_lock ≡ false))
      (handle_trap seven program 0 (λ s. halt) (frame 15) machine)
unfolding pte_create prot_to_type type_of
handle_trap-PagedIn_example =
    handle_trap-PagedIn seven program 0 (λ s. halt) (frame 15) machine 2 12416 store refl placed
      pending refl

handle_trap_panics_example : handle_trap seven program 0 (λ s. halt) (frame 2) machine ≡ panic
handle_trap_panics_example =
    handle_trap_panics seven program 0 (λ s. halt) (frame 2) machine refl refl

stack_pointer-fits_example :
    (stack_pointer 0x3000_0000 2 8 % 16 ≡ 0)
    × (stack_pointer 0x3000_0000 2 8 + (3 + 2 + 2 * 8) * 8 ≤ 0x3000_0000)
    × (0x3000_0000 < stack_pointer 0x3000_0000 2 8 + (3 + 2 + 2 * 8) * 8 + 16)
stack_pointer-fits_example = stack_pointer-fits 0x3000_0000 2 8 (omega arith) (omega arith)
