-- ===== src/Pk/Trap.antt =====
-- handlers.c: the trap frame of the program, the table of handlers by cause, and what each handler
-- does to the frame. `dump_tf` prints the frame, which is left out, and clears its register 0; a
-- handler that ends in `panic` does not return.
pub mod Dispatch
pub mod Refill
use boom_stop.Base.{
  ℕ, ◌+◌, ◌-◌, Option, none, some, List, [], ◌∷◌, Bool, update, bit_and, u64, neg, is_neg, ltb,
  ◌==◌, if◌then◌else◌,
}
use boom_stop.Base.Cmd.{Cmd, Run, ok, panic, halt, pure, ◌>>=◌}
use boom_stop.Pk.Frontend.{Host}
use boom_stop.Pk.Mmap.State.{Kernel}
use boom_stop.Pk.Mmap.Fault.{handle_page_fault}
use boom_stop.Pk.Syscall.Table.{
  Sys, Program, Slot, null, entry, outside, row, array_size, do_syscall,
}

pub record Trapframe : Type 0 where
  pub gpr : ℕ → ℕ
  pub status : ℕ
  pub epc : ℕ
  pub badvaddr : ℕ
  pub cause : ℕ
  pub insn : ℕ

-- The kernel and the register of pending interrupts.
pub record Machine : Type 0 where
  pub kernel : Kernel
  pub sip : ℕ

unfoldable pub on_kernel : {A : Type 0} → Cmd Kernel A → Cmd Machine A
on_kernel c m = elim (c m.kernel) [ ok a k ↦ ok a (record m { kernel = k }) | panic ↦ panic ]

abbrev pub dump_tf : Trapframe → Trapframe
dump_tf tf = record tf { gpr = update tf.gpr 0 0 }

pub data Handler : Type 0 where
  misaligned_fetch instruction_access_fault load_access_fault store_access_fault : Handler
  fault_fetch illegal_instruction syscall breakpoint misaligned_load misaligned_store : Handler
  fault_load fault_store : Handler

unfoldable pub trap_handlers : List (ℕ × Handler)
trap_handlers =
    (0, misaligned_fetch)
    ∷ (1, instruction_access_fault)
    ∷ (5, load_access_fault)
    ∷ (7, store_access_fault)
    ∷ (12, fault_fetch)
    ∷ (2, illegal_instruction)
    ∷ (8, syscall)
    ∷ (3, breakpoint)
    ∷ (4, misaligned_load)
    ∷ (6, misaligned_store)
    ∷ (13, fault_load)
    ∷ (15, fault_store)
    ∷ []

-- kassert(cause < ARRAY_SIZE(trap_handlers) && trap_handlers[cause])
unfoldable pub find_handler : ℕ → Slot Handler
find_handler cause = if ltb cause (array_size trap_handlers) then row trap_handlers cause else null

unfoldable pub handle_breakpoint : Trapframe → Trapframe
handle_breakpoint tf = record (dump_tf tf) { epc = u64 (tf.epc + 4) }

-- `handle_fault_fetch`, `handle_fault_load` and `handle_fault_store`, with `segfault`.
unfoldable pub handle_fault : Host → (prot : ℕ) → Trapframe → Cmd Kernel Trapframe
handle_fault host prot tf = do
  r ← handle_page_fault host tf.badvaddr prot
  if r == 0 then pure tf else halt

-- clear_csr(sip, SIP_SSIP)
unfoldable pub handle_interrupt : Trapframe → Cmd Machine Trapframe
handle_interrupt tf m = ok tf (record m { sip = m.sip - bit_and m.sip 2 })

module _ (host : Host) (program : Program) (cycle : ℕ) (other : Sys → Cmd Kernel ℕ) where
  unfoldable pub handle_syscall : Trapframe → Cmd Kernel Trapframe
  handle_syscall tf = do
    r ←
        do_syscall host program cycle other (tf.gpr 10) (tf.gpr 11) (tf.gpr 12) (tf.gpr 13)
          (tf.gpr 14) (tf.gpr 15) (tf.gpr 17)
    pure (record tf { gpr = update tf.gpr 10 r; epc = u64 (tf.epc + 4) })

  unfoldable pub run_handler : Handler → Trapframe → Cmd Kernel Trapframe
  run_handler fault_fetch tf = handle_fault host 4 tf
  run_handler fault_load tf = handle_fault host 1 tf
  run_handler fault_store tf = handle_fault host 2 tf
  run_handler syscall tf = handle_syscall tf
  run_handler breakpoint tf = pure (handle_breakpoint tf)
  run_handler h tf = halt

  unfoldable pub handle_trap : Trapframe → Cmd Machine Trapframe
  handle_trap tf = if is_neg tf.cause then handle_interrupt tf else elim (find_handler tf.cause) [
    | null ↦ halt
    | entry h ↦ on_kernel (run_handler h tf)
    | outside ↦ halt
  ]
