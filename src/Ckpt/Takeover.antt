-- ===== src/Ckpt/Takeover.antt =====
-- takeover_syscall.cpp: what a system call of the loaded program is answered with. An instruction that
-- was put in its place jumps here. Addresses are not wrapped around, and the loop over the data is
-- for sizes that an `int` can count.
use boom_stop.Base.{
  ℕ, zero, suc, ◌+◌, ◌/◌, ◌%◌, ◌^◌, not, ◌&&◌, update, u64, sub64, leb, ◌==◌, if◌then◌else◌,
}
use boom_stop.Ckpt.{
  Process, RunningInfo, read_le, write_le, store_int_reg_addr, ecall_replace, cause_exit_inst,
  sysidx, sinfo_at, info_pc, info_num, info_p0, info_ret, info_data_offset,
}

-- The counters of cycles and instructions, as they are read on entry and before the return.
pub record CallClock : Type 0 where
  pub cycles : ℕ
  pub insts : ℕ
  pub exit_cycles : ℕ
  pub exit_insts : ℕ

-- The two calls of `exit`, and the jump to the address in `temp 2`.
pub data Takeover : Type 0 where
  overflow : Process → Takeover
  wrong_number : Process → Takeover
  resumed : Process → Takeover

-- for (c = 0; c < data_size; c++) dst[c] = data[c];
unfoldable pub copy_data : (left c dst data_addr : ℕ) → (ℕ → ℕ) → (ℕ → ℕ)
copy_data zero c dst data_addr memory = memory
copy_data (suc left) c dst data_addr memory =
    copy_data left (c + 1) dst data_addr (update memory (dst + c) (memory (data_addr + c)))

-- The registers are saved, with a0 already the address where they go, and the counters are read.
abbrev pub save_context : CallClock → (regs : ℕ → ℕ) → RunningInfo → RunningInfo
save_context clock regs info = record info {
  intregs = update regs 10 store_int_reg_addr;
  cycles = u64 (info.cycles + sub64 clock.cycles info.lastcycles);
  insts = u64 (info.insts + sub64 clock.insts info.lastinsts);
}

-- this syscall has data to process
unfoldable pub process_data : (syscall_info_addr sinfo : ℕ) → (ℕ → ℕ) → (ℕ → ℕ)
process_data syscall_info_addr sinfo memory =
    let data_offset = info_data_offset memory sinfo / 2 ^ 8 in
    let data_size = info_num memory sinfo % 2 ^ 32 in
    let bufaddr = read_le memory (syscall_info_addr + data_offset) 8 in
    if data_offset == 0xffffffff
    then memory
    else if bufaddr == 0
    then memory
    else copy_data data_size 0 bufaddr (syscall_info_addr + data_offset + 8) memory

unfoldable pub takeover_syscall : CallClock → (regs : ℕ → ℕ) → Process → Takeover
takeover_syscall clock regs p =
    let info = save_context clock regs p.info in
    let sia = info.syscall_info_addr in
    let total = info.totalcallnum in
    let sinfo = sinfo_at p.memory sia total (sysidx p.memory sia info.nowcallnum) in
    if leb total info.nowcallnum
    then overflow (record p { info = info })
    else let first = update info.intregs 10 (info_p0 p.memory sinfo) in
      if not (info.intregs 17 == info_num p.memory sinfo / 2 ^ 32)
      then wrong_number (record p { info = record info { intregs = first } })
      else let memory = process_data sia sinfo p.memory in
        let hasret = info_data_offset memory sinfo % 256 in
        let intregs = if hasret == 0 then first else update first 10 (info_ret memory sinfo) in
        let now = info.nowcallnum + 1 in
        let patched =
          if now == total && info.exit_cause == cause_exit_inst
          then write_le info.exitpc 4 ecall_replace memory
          else memory in
        resumed (record {
          info = record info {
            intregs = intregs;
            nowcallnum = now;
            lastcycles = clock.exit_cycles;
            lastinsts = clock.exit_insts;
          };
          memory = patched;
          temp = update p.temp 2 (info_pc patched sinfo + 4);
        })
