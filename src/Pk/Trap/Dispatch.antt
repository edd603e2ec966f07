-- ===== src/Pk/Trap/Dispatch.antt =====
-- Which traps the program survives, and a page fault that fills its page.
use boom_stop.Base.{
  ℕ, ◌≡◌, refl, Bool, true, false, ◌||◌, ◌==◌, is_neg, ltb, arith, inl, inr, Bool-cases, all_below,
  all_below_lem,
}
use boom_stop.Base.Cmd.{Cmd, panic, halt}
use boom_stop.Pk.Frontend.{Host}
use boom_stop.Pk.Mmap.State.{Kernel}
use boom_stop.Pk.Syscall.Table.{Sys, Program, Slot, null, entry, outside, row, listed, array_size}
use boom_stop.Pk.Trap.{
  Trapframe, Machine, Handler, breakpoint, syscall, fault_fetch, fault_load, fault_store,
  misaligned_fetch, instruction_access_fault, load_access_fault, store_access_fault,
  illegal_instruction, misaligned_load, misaligned_store, trap_handlers, find_handler, run_handler,
  handle_trap, on_kernel,
}

-- A breakpoint, a system call and the three page faults.
abbrev pub survives : ℕ → Bool
survives cause = cause == 3 || (cause == 8 || (cause == 12 || (cause == 13 || cause == 15)))

abbrev is_deadly : Slot Handler → Bool
is_deadly null = true
is_deadly outside = false
is_deadly (entry breakpoint) = false
is_deadly (entry syscall) = false
is_deadly (entry fault_fetch) = false
is_deadly (entry fault_load) = false
is_deadly (entry fault_store) = false
is_deadly (entry h) = true

sixteen : all_below (λ cause. survives cause || is_deadly (find_handler cause)) 16 ≡ true
unfolding all_below find_handler trap_handlers row listed array_size
sixteen = refl

handlers_size : array_size trap_handlers ≡ 16
unfolding array_size trap_handlers
handlers_size = refl

find_handler_above : (cause : ℕ) → ltb cause 16 ≡ false → is_deadly (find_handler cause) ≡ true
unfolding find_handler
find_handler_above cause f = rw (handlers_size, f) refl

find_handler-deadly : (cause : ℕ) → survives cause ≡ false → is_deadly (find_handler cause) ≡ true
find_handler-deadly cause s = elim (Bool-cases (ltb cause 16)) [
  | inl t ↦
      let e : (survives cause || is_deadly (find_handler cause)) ≡ true =
        all_below_lem (λ c. survives c || is_deadly (find_handler c)) 16 cause sixteen
          (ground arith) in
      rw s at e
  | inr f ↦ find_handler_above cause f
]

module _ (host : Host) (program : Program) (cycle : ℕ) (other : Sys → Cmd Kernel ℕ) where
  deadly_panics :
      (tf : Trapframe) (m : Machine) (o : Slot Handler)
      → is_deadly o ≡ true
      → (elim o as (λ _. Cmd Machine Trapframe) [
        | null ↦ halt
        | entry h ↦ on_kernel (run_handler host program cycle other h tf)
        | outside ↦ halt
      ])
          m
        ≡ panic
  unfolding run_handler on_kernel
  deadly_panics tf m null d = refl
  deadly_panics tf m outside d = refl
  deadly_panics tf m (entry breakpoint) d = ground arith
  deadly_panics tf m (entry syscall) d = ground arith
  deadly_panics tf m (entry fault_fetch) d = ground arith
  deadly_panics tf m (entry fault_load) d = ground arith
  deadly_panics tf m (entry fault_store) d = ground arith
  deadly_panics tf m (entry misaligned_fetch) d = refl
  deadly_panics tf m (entry instruction_access_fault) d = refl
  deadly_panics tf m (entry load_access_fault) d = refl
  deadly_panics tf m (entry store_access_fault) d = refl
  deadly_panics tf m (entry illegal_instruction) d = refl
  deadly_panics tf m (entry misaligned_load) d = refl
  deadly_panics tf m (entry misaligned_store) d = refl

  -- Every trap that is not an interrupt, a breakpoint, a system call or a page fault ends the
  -- machine, causes past the end of the table included.
  pub handle_trap_panics :
      (tf : Trapframe) (m : Machine)
      → is_neg tf.cause ≡ false
      → survives tf.cause ≡ false
      → handle_trap host program cycle other tf m ≡ panic
  unfolding handle_trap
  handle_trap_panics tf m pos s =
      rw pos (deadly_panics tf m (find_handler tf.cause) (find_handler-deadly tf.cause s))
