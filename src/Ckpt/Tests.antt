-- ===== src/Ckpt/Tests.antt =====
-- The theorems on the replay, at a record of three calls: write(1) at 0x10000, read at 0x10008, which
-- brings four bytes, and the first one again. The run is to end at 0x10010.
mod Code
use boom_stop.Base.{
  ℕ, zero, suc, ◌+◌, ◌*◌, ◌^◌, ◌≤◌, ◌<◌, ◌≡◌, refl, true, false, inl, inr, ◌==◌, if◌then◌else◌,
  arith, [], ◌∷◌, ltb, ◌-◌, some,
}
use boom_stop.Ckpt.{Process, read_le, write_le}
use boom_stop.Ckpt.Takeover.{CallClock, resumed, takeover_syscall}
use boom_stop.Ckpt.Log.{IsLog, Apart, recorded, data_offset, data_size, has_data, bufaddr}
use boom_stop.Ckpt.Stream.{fread_u64, CkptFile, Os, map_zero}
use boom_stop.Ckpt.Started.{Started, intregs_read, fpregs_read, read_ckptinfo-Started}
use boom_stop.Ckpt.Load.{
  Unset, read_ckptinfo, fread_siminfo, alloc_memrange, alloc_ranges, fread_memrange, set_fist_load,
  fread_loads, store_loads, read_ckptsyscall,
}
use boom_stop.Ckpt.Patch.{Separate, call_pc}
use boom_stop.Ckpt.Patch.Ready.{Ready, Good, read_ckptsyscall-Ready, file_log, file_total}
use boom_stop.Ckpt.Answered.{Answered, Intact}
use boom_stop.Ckpt.Replay.{takeover_syscall-Answered}
use boom_stop.Ckpt.Replay.Run.{Segment, replay, Ended, replay-Ended}

-- pc, num, p0, ret and data_offset.
abbrev entry : (place pc num p0 ret data_offset : ℕ) → (ℕ → ℕ) → (ℕ → ℕ)
entry place pc num p0 ret data_offset content = write_le place 8 pc (
    write_le (place + 8) 8 num (
      write_le (place + 16) 8 p0
        (write_le (place + 24) 8 ret (write_le (place + 32) 8 data_offset content))))

abbrev content : ℕ → ℕ
content = write_le 0 8 3 (
    write_le 8 4 0 (
      write_le 12 4 1 (
        write_le 16 4 0 (
          entry 20 0x10000 (64 * 2 ^ 32) 1 5 0xffffffff01 (
            entry 60 0x10008 (63 * 2 ^ 32 + 4) 0 4 (100 * 256 + 1)
              (write_le 100 8 0x30000 (write_le 108 4 0x64636261 (λ _. 0))))))))

-- What is in front: no text ranges, the slice, which ends at 0x10010 after 1000 instructions, and is
-- to start at 0x10000, the registers, a range of memory and a first load.
abbrev whole : CkptFile
whole = record {
  content = λ a.
      if ltb a 608
      then write_le 24 8 0x10010
          (write_le 32 8 4002 (
            write_le 40 8 0x10000 (
              write_le 560 8 1 (
                write_le 568 8 0x10000 (
                  write_le 576 8 0x1000
                    (write_le 584 8 1 (write_le 592 8 0x10800 (write_le 600 8 77 (λ _. 0)))))))))
          a
      else content (a - 608);
  size = 720;
  pos = 0;
}

abbrev ckpt_file : CkptFile
ckpt_file = record whole { pos = 608 }

abbrev kernel : Os
kernel = record { place = λ hint _. hint; fixed = λ addr _. addr }

abbrev loaded : Process
loaded = record {
  info = record {
    exitpc = 0x10010;
    exit_cause = 2;
    syscall_info_addr = 0;
    nowcallnum = 0;
    totalcallnum = 0;
    intregs = λ _. 0;
    fpregs = λ _. 0;
    cycles = 0;
    insts = 0;
    lastcycles = 0;
    lastinsts = 0;
    startcycles = 0;
    startinsts = 0;
  };
  memory = λ _. 0;
  temp = λ _. 0;
}

total_lem : file_total kernel ckpt_file ≡ 3
unfolding read_le
total_lem = refl

below_three : (P : ℕ → Type 0) → P 0 → P 1 → P 2 → (i : ℕ) → i < 3 → P i
below_three P a b c zero low = a
below_three P a b c (suc zero) low = b
below_three P a b c (suc (suc zero)) low = c
below_three P a b c (suc (suc (suc i))) low = absurd (omega arith)

abbrev log : ℕ → ℕ
log = file_log kernel ckpt_file

abbrev lo : ℕ
lo = 0x2000000

abbrev hi : ℕ
hi = lo + 112

three_calls : IsLog log lo hi 3
unfolding read_le
three_calls = record {
  indices = omega arith;
  entries =
      below_three (λ i. recorded log lo hi 3 i + 40 ≤ hi) (omega arith) (omega arith) (omega arith);
  headers =
      below_three
        (λ i.
          (data_offset log lo hi 3 i == 0xffffffff) ≡ false
          → lo + data_offset log lo hi 3 i + 8 ≤ hi)
        (λ e. cc e) (λ e. omega arith) (λ e. cc e);
  contents =
      below_three
        (λ i.
          has_data log lo hi 3 i ≡ true
          → lo + data_offset log lo hi 3 i + 8 + data_size log lo hi 3 i ≤ hi)
        (λ e. cc e) (λ e. omega arith) (λ e. cc e);
  buffers =
      below_three
        (λ i.
          has_data log lo hi 3 i ≡ true
          → Apart lo hi (bufaddr log lo hi 3 i) (data_size log lo hi 3 i))
        (λ e. cc e) (λ e. inl (omega arith)) (λ e. cc e);
}

good : Good kernel ckpt_file
unfolding read_le
good = record {
  is_log = three_calls;
  apart =
      below_three (λ i. Apart lo hi (call_pc log lo hi 3 i) 4) (inl (omega arith))
        (inl (omega arith)) (inl (omega arith));
  separate = λ i j l h.
      below_three (λ i. (j : ℕ) → j < 3 → Separate (call_pc log lo hi 3 i) (call_pc log lo hi 3 j))
        (below_three (λ j. Separate 0x10000 (call_pc log lo hi 3 j)) (inl refl)
          (inr (inl (omega arith))) (inl refl))
        (below_three (λ j. Separate 0x10008 (call_pc log lo hi 3 j)) (inr (inr (omega arith)))
          (inl refl) (inr (inr (omega arith))))
        (below_three (λ j. Separate 0x10000 (call_pc log lo hi 3 j)) (inl refl)
          (inr (inl (omega arith))) (inl refl))
        i l j h;
}

abbrev ready : Process
ready = read_ckptsyscall kernel ckpt_file loaded

read_ckptsyscall-Ready_example : Ready kernel ckpt_file loaded good ready
read_ckptsyscall-Ready_example =
    read_ckptsyscall-Ready kernel ckpt_file loaded good (omega arith) (inl (omega arith))

abbrev total : ℕ
total = file_total kernel ckpt_file

abbrev quiet_clock : CallClock
quiet_clock = record { cycles = 0; insts = 0; exit_cycles = 0; exit_insts = 0 }

-- A part of the program that ends with the call of that number.
abbrev calls : (number : ℕ) → Segment
calls number = record {
  clock = quiet_clock;
  regs = λ r. if r == 17 then number else r;
  writes = λ memory. memory;
}

quiet : (memory : ℕ → ℕ) (a : ℕ) → lo ≤ a → a < hi → memory a ≡ memory a
quiet memory a l h = refl

ready-Intact : Intact log lo hi total (good.is_log) ready
unfolding read_le
ready-Intact =
    (read_ckptsyscall-Ready kernel ckpt_file loaded good (omega arith) (inl (omega arith))).intact

takeover_syscall-Answered_example :
    (q : Process) × (takeover_syscall quiet_clock ((calls 64).regs) ready ≡ resumed q)
    × Answered log lo hi total (good.is_log) ready.info.nowcallnum ((calls 64).regs) ready q
unfolding read_ckptsyscall read_le
takeover_syscall-Answered_example =
    takeover_syscall-Answered log lo hi total (good.is_log) quiet_clock ((calls 64).regs) ready
      (omega arith) refl ready-Intact

replay-Ended_example :
    (q : Process) × (replay (calls 64 ∷ calls 63 ∷ calls 64 ∷ []) ready ≡ resumed q)
    × Ended log lo hi total (good.is_log) ready.info q
unfolding read_ckptsyscall read_le
replay-Ended_example =
    replay-Ended log lo hi total (good.is_log) (calls 64) (calls 63 ∷ calls 64 ∷ []) ready
      ready-Intact (refl, quiet, (refl, quiet, (refl, quiet, tt))) refl

abbrev unset : Unset
unset = record {
  siminfo = record { start = 0; sim_num = 0; exitpc = 0; exit_cause = 0 };
  npc = 0;
  memrange = record { addr = 0; size = 0 };
  load = 0;
}

read_ckptinfo-Started_example :
    (q : Process) × (read_ckptinfo kernel unset 0x12340 quiet_clock whole loaded
      ≡ some (q, record { max_inst = 1000; warmup_inst = 0 }))
    × Started kernel ckpt_file good
        (intregs_read kernel unset whole loaded).0
        (fpregs_read kernel unset whole loaded).0
        0x10010
        2
        0x10000
        q
unfolding read_le fread_u64 fread_siminfo alloc_memrange alloc_ranges fread_memrange set_fist_load
    fread_loads store_loads
read_ckptinfo-Started_example =
    read_ckptinfo-Started kernel unset whole loaded (map_zero 0x10000 0x1000 (λ _. 0))
      (record whole { pos = 584 }) 0x12340 quiet_clock refl good (omega arith) (inl (omega arith))
