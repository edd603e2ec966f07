-- ===== src/Ckpt/Replay.antt =====
-- The replay of the system calls by `takeoverSyscall`: one call.
pub mod Run
use boom_stop.Base.{
  ℕ, zero, suc, ◌+◌, ◌-◌, ◌*◌, ◌/◌, ◌%◌, ◌^◌, ◌≤◌, ◌<◌, ◌≡◌, refl, fun_ext, ◌∙◌, ap, Bool, true,
  false, not, ◌&&◌, inl, inr, update, fill, leb, ltb, ◌==◌, ==_self, if◌then◌else◌, arith,
  Bool-cases, List, [], ◌∷◌, length,
}
use boom_stop.Ckpt.{
  Process, read_le, write_le, le_byte, sysidx, sinfo_at, info_pc, info_p0, info_ret, info_num,
  info_data_offset, ecall_replace, cause_exit_inst, store_int_reg_addr,
}
use boom_stop.Ckpt.Takeover.{
  CallClock, Takeover, resumed, overflow, save_context, process_data, takeover_syscall,
}
use boom_stop.Ckpt.Log.{Agree, Apart, read_le-Agree, fill-Agree, IsLog, recorded}
use boom_stop.Ckpt.Answered.{
  answer, delivered, memory_after, entry_field, delivered-Agree, process_data-delivered, Intact,
  Answered,
}

-- The state that a call is resumed in, from the address of its entry and the memory with its data.
abbrev replaced : (p : Process) (memory : ℕ → ℕ) → (ℕ → ℕ)
replaced p memory =
    if p.info.nowcallnum + 1 == p.info.totalcallnum && p.info.exit_cause == cause_exit_inst
    then write_le p.info.exitpc 4 ecall_replace memory
    else memory

abbrev resumed_state : CallClock → (regs : ℕ → ℕ) → Process → (sinfo : ℕ) (memory : ℕ → ℕ) → Process
resumed_state clock regs p sinfo memory =
    let info = save_context clock regs p.info in
    let first = update info.intregs 10 (info_p0 p.memory sinfo) in
    record {
      info = record info {
        intregs =
            if info_data_offset memory sinfo % 256 == 0
            then first
            else update first 10 (info_ret memory sinfo);
        nowcallnum = p.info.nowcallnum + 1;
        lastcycles = clock.exit_cycles;
        lastinsts = clock.exit_insts;
      };
      memory = replaced p memory;
      temp = update p.temp 2 (info_pc (replaced p memory) sinfo + 4);
    }

takeover_syscall-resumed :
    (clock : CallClock) (regs : ℕ → ℕ) (p : Process) (sinfo : ℕ)
    → leb p.info.totalcallnum p.info.nowcallnum ≡ false
    → sinfo_at p.memory p.info.syscall_info_addr p.info.totalcallnum
        (sysidx p.memory p.info.syscall_info_addr p.info.nowcallnum)
      ≡ sinfo
    → (regs 17 == info_num p.memory sinfo / 2 ^ 32) ≡ true
    → takeover_syscall clock regs p
      ≡ resumed
          (resumed_state clock regs p sinfo (process_data p.info.syscall_info_addr sinfo p.memory))
unfolding takeover_syscall
takeover_syscall-resumed clock regs p sinfo left e number =
    rw (left, e, number, takeover_syscall) refl

answer_register :
    (b : Bool) (a c base r : ℕ) (regs : ℕ → ℕ)
    → (if b
          then update (update regs 10 base) 10 a
          else update (update (update regs 10 base) 10 a) 10 c)
        r
      ≡ (if r == 10 then (if b then a else c) else regs r)
answer_register true a c base r regs = ground arith
answer_register false a c base r regs = ground arith

module _ (log : ℕ → ℕ) (lo hi total : ℕ) (is_log : IsLog log lo hi total) where
  abbrev pub recorded_number : (i : ℕ) → ℕ
  recorded_number i = info_num log (recorded log lo hi total i) / 2 ^ 32

  replaced-Agree :
      (p : Process) (memory : ℕ → ℕ)
      → Intact log lo hi total is_log p
      → Agree lo hi log memory
      → Agree lo hi log (replaced p memory)
  replaced-Agree p memory ok same =
      elim (Bool-cases
        (p.info.nowcallnum + 1 == p.info.totalcallnum && p.info.exit_cause == cause_exit_inst)) [
          | inl t ↦ rw t (
              fill-Agree lo hi p.info.exitpc 4 log memory (le_byte ecall_replace) same
                ok.exit_apart)
          | inr f ↦ rw f same
        ]

  resumed_state-Answered :
      (clock : CallClock) (regs : ℕ → ℕ) (p : Process)
      → p.info.nowcallnum < total
      → Intact log lo hi total is_log p
      → Answered log lo hi total is_log p.info.nowcallnum regs p (
          resumed_state clock regs p
            (recorded log lo hi total p.info.nowcallnum)
            (delivered log lo hi total is_log p.info.nowcallnum p.memory))
  resumed_state-Answered clock regs p low ok =
      let i = p.info.nowcallnum in
      let sinfo = recorded log lo hi total i in
      let memory = delivered log lo hi total is_log i p.memory in
      let same = delivered-Agree log lo hi total is_log i p.memory low ok.same in
      let after = replaced-Agree p memory ok same in
      let off = entry_field log lo hi total is_log i 32 memory low (omega arith) same in
      let ret = entry_field log lo hi total is_log i 24 memory low (omega arith) same in
      let p0 = entry_field log lo hi total is_log i 16 p.memory low (omega arith) ok.same in
      record {
        next = refl;
        registers = λ r.
            rw (off, ret, p0)
              (answer_register (info_data_offset log sinfo % 256 == 0) (info_p0 log sinfo)
                (info_ret log sinfo) store_int_reg_addr r regs);
        goes_on =
            ap (λ pc. pc + 4)
              (read_le-Agree lo hi sinfo 8 log (replaced p memory) after (omega arith)
                (omega (arith, is_log.entries i low)));
        writes = λ a. rw (ok.counted) refl;
        intact = record {
          placed = ok.placed;
          counted = ok.counted;
          not_past = omega (arith, low);
          same = after;
          exit_apart = ok.exit_apart;
        };
        same_exit = (refl, refl);
      }

  -- While a recorded call is left, a call with its number and the record in place is resumed behind
  -- the instruction of the recorded one: a0 is the recorded result or, without one, the recorded
  -- first argument, all other registers are kept, memory has the recorded data, and the replaced
  -- instruction at the end of the run if this was the last call and the run ends at an instruction;
  -- the next call is the one after it.
  pub takeover_syscall-Answered :
      (clock : CallClock) (regs : ℕ → ℕ) (p : Process)
      → p.info.nowcallnum < total
      → regs 17 ≡ recorded_number p.info.nowcallnum
      → Intact log lo hi total is_log p
      → (q : Process) × (takeover_syscall clock regs p ≡ resumed q)
        × Answered log lo hi total is_log p.info.nowcallnum regs p q
  takeover_syscall-Answered clock regs p low number ok =
      let i = p.info.nowcallnum in
      let sinfo = recorded log lo hi total i in
      let left : leb p.info.totalcallnum i ≡ false = ground (arith, ok.counted) in
      let idx =
        read_le-Agree lo hi (lo + 8 + 4 * i) 4 log p.memory ok.same (omega arith)
          (omega (arith, is_log.indices)) in
      let entry : sinfo_at p.memory p.info.syscall_info_addr p.info.totalcallnum
            (sysidx p.memory p.info.syscall_info_addr i)
          ≡ sinfo =
        rw (ok.placed, ok.counted, idx) refl in
      let num = entry_field log lo hi total is_log i 8 p.memory low (omega arith) ok.same in
      let agrees : (regs 17 == info_num p.memory sinfo / 2 ^ 32) ≡ true =
        rw (num, number) (==_self (recorded_number i)) in
      let data_in : process_data p.info.syscall_info_addr sinfo p.memory
          ≡ delivered log lo hi total is_log i p.memory =
        rw (ok.placed)
          (fun_ext (process_data-delivered log lo hi total is_log i p.memory low ok.same)) in
      (
        resumed_state clock regs p sinfo (delivered log lo hi total is_log i p.memory),
        takeover_syscall-resumed clock regs p sinfo left entry agrees
            ∙ ap (λ m. resumed (resumed_state clock regs p sinfo m)) data_in,
        resumed_state-Answered clock regs p low ok,
      )
