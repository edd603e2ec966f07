-- ===== src/Ckpt/Load.antt =====
-- ckpt_load.cpp: the checkpoint is read from a file, its memory mapped and filled, and each recorded
-- system call replaced in the program by a jump to the loader. `none` is an assertion that fails. What
-- is printed is not modelled, nor are the counters of ctrl.h, which `init_start` sets.
use boom_stop.Base.{
  ℕ, zero, suc, ◌+◌, ◌-◌, ◌*◌, ◌/◌, ◌%◌, ◌^◌, Bool, false, ◌&&◌, ◌||◌, Option, none, some, List, [],
  ◌∷◌, update, fill, ◌==◌, if◌then◌else◌,
}
use boom_stop.Ckpt.{
  Process, RunningInfo, MemRangeInfo, read_le, write_le, ecall_replace, cause_exit_inst, sysidx,
  sinfo_at, info_pc,
}
use boom_stop.Ckpt.Takeover.{CallClock}
use boom_stop.Ckpt.Stream.{CkptFile, Os, fread_u64, fread_regs, map_zero}

unfoldable pub fread_memrange : (junk : MemRangeInfo) → CkptFile → MemRangeInfo × CkptFile
fread_memrange junk f =
    let addr = fread_u64 junk.addr f in
    let size = fread_u64 junk.size (addr.1) in (record { addr = addr.0; size = size.0 }, size.1)

-- The loop of `alloc_memrange`; a range of no bytes is passed over.
unfoldable pub alloc_ranges :
    Os → (left : ℕ) (memrange : MemRangeInfo) → CkptFile → (ℕ → ℕ) → Option ((ℕ → ℕ) × CkptFile)
alloc_ranges kernel zero memrange f memory = some (memory, f)
alloc_ranges kernel (suc left) memrange f memory =
    let read = fread_memrange memrange f in
    let range = read.0 in
    if range.size == 0
    then alloc_ranges kernel left range (read.1) memory
    else if kernel.fixed range.addr range.size == range.addr
    then alloc_ranges kernel left range (read.1) (map_zero range.addr range.size memory)
    else none

unfoldable pub alloc_memrange :
    Os → (junk : MemRangeInfo) → CkptFile → (ℕ → ℕ) → Option ((ℕ → ℕ) × CkptFile)
alloc_memrange kernel junk f memory =
    let num = fread_u64 0 f in alloc_ranges kernel (num.0) junk (num.1) memory

pub record LoadInfo : Type 0 where
  pub addr : ℕ
  pub data_word : ℕ

-- The array that is read, which was allocated and not set.
unfoldable pub fread_loads : (junk : ℕ) (left : ℕ) → CkptFile → List LoadInfo × CkptFile
fread_loads junk zero f = ([], f)
fread_loads junk (suc left) f =
    let addr = fread_u64 junk f in
    let word = fread_u64 junk (addr.1) in
    let rest = fread_loads junk left (word.1) in
    (record { addr = addr.0; data_word = word.0 } ∷ rest.0, rest.1)

-- *((uint64_t *)linfos[j].addr) = linfos[j].data, for each.
unfoldable pub store_loads : List LoadInfo → (ℕ → ℕ) → (ℕ → ℕ)
store_loads [] memory = memory
store_loads (l ∷ rest) memory = store_loads rest (write_le l.addr 8 l.data_word memory)

unfoldable pub set_fist_load : (junk : ℕ) → CkptFile → (ℕ → ℕ) → (ℕ → ℕ) × CkptFile
set_fist_load junk f memory =
    let loadnum = fread_u64 0 f in
    let loads = fread_loads junk (loadnum.0) (loadnum.1) in (store_loads (loads.0) memory, loads.1)

-- rep_idxs.find(idx) != rep_idxs.end()
unfoldable pub contains : (idx : ℕ) → List ℕ → Bool
contains idx [] = false
contains idx (x ∷ xs) = idx == x || contains idx xs

-- The loop of `read_ckptsyscall` from call `i` on.
unfoldable pub replace_ecalls : (left i sia total : ℕ) (rep_idxs : List ℕ) → (ℕ → ℕ) → (ℕ → ℕ)
replace_ecalls zero i sia total rep_idxs memory = memory
replace_ecalls (suc left) i sia total rep_idxs memory =
    let idx = sysidx memory sia i in
    let sinfo = sinfo_at memory sia total idx in
    (if contains idx rep_idxs then replace_ecalls left (i + 1) sia total rep_idxs else λ m.
    replace_ecalls left (i + 1) sia total (idx ∷ rep_idxs)
      (write_le (info_pc m sinfo) 4 ecall_replace m))
      memory

-- filesize + (4096 - filesize % 4096)
abbrev pub allocsize : (filesize : ℕ) → ℕ
allocsize filesize = filesize + (4096 - filesize % 4096)

abbrev pub syscall_hint : ℕ
syscall_hint = 0x2000000

unfoldable pub read_ckptsyscall : Os → CkptFile → Process → Process
read_ckptsyscall kernel f p =
    let filesize = f.size - f.pos in
    let sia = kernel.place syscall_hint (allocsize filesize) in
    let mapped = map_zero sia (allocsize filesize) p.memory in
    let memory = fill mapped sia filesize (λ i. f.content (f.pos + i)) in
    let total = read_le memory sia 8 in
    record p {
      info = record (p.info) { syscall_info_addr = sia; nowcallnum = 0; totalcallnum = total };
      memory = replace_ecalls total 0 sia total [] memory;
    }

pub record SimInfo : Type 0 where
  pub start : ℕ
  pub sim_num : ℕ
  pub exitpc : ℕ
  pub exit_cause : ℕ

unfoldable pub fread_siminfo : (junk : SimInfo) → CkptFile → SimInfo × CkptFile
fread_siminfo junk f =
    let start = fread_u64 junk.start f in
    let sim_num = fread_u64 junk.sim_num (start.1) in
    let exitpc = fread_u64 junk.exitpc (sim_num.1) in
    let exit_cause = fread_u64 junk.exit_cause (exitpc.1) in
    (
      record { start = start.0; sim_num = sim_num.0; exitpc = exitpc.0; exit_cause = exit_cause.0 },
      exit_cause.1,
    )

-- The numbers that `init_start` is called with.
pub record Simulated : Type 0 where
  pub max_inst : ℕ
  pub warmup_inst : ℕ

abbrev pub simulated : SimInfo → Simulated
simulated s =
    let warmup = s.sim_num / 2 ^ 32 in
    let run_length = s.exit_cause / 2 ^ 2 in
    let sim_num = s.sim_num % 2 ^ 32 in
    if run_length == 0
    then record { max_inst = sim_num - sim_num / 20; warmup_inst = sim_num / 20 }
    else record { max_inst = run_length; warmup_inst = warmup }

-- try to replace exit inst if syscall totalnum == 0
abbrev pub replace_exit : Process → Process
replace_exit p =
    if p.info.totalcallnum == 0 && p.info.exit_cause == cause_exit_inst
    then record p { memory = write_le p.info.exitpc 4 ecall_replace p.memory }
    else p

-- Variables that are not set before they are read into.
pub record Unset : Type 0 where
  pub siminfo : SimInfo
  pub npc : ℕ
  pub memrange : MemRangeInfo
  pub load : ℕ

-- The counters of cycles and instructions, which are read twice.
abbrev pub start_info : CallClock → RunningInfo → RunningInfo
start_info clock info = record info {
  cycles = 0;
  insts = 0;
  lastcycles = clock.cycles;
  lastinsts = clock.insts;
  startcycles = clock.exit_cycles;
  startinsts = clock.exit_insts;
}

-- From the open file up to the jump into the program, to the address in `temp 2`, with the registers
-- of `info`; and what the counters are set up for.
unfoldable pub read_ckptinfo :
    Os
    → (unset : Unset) (take_over_addr : ℕ) → CallClock
    → CkptFile
    → Process
    → Option (Process × Simulated)
read_ckptinfo kernel unset take_over_addr clock f p =
    let temp = fread_u64 0 f in
    let siminfo = fread_siminfo unset.siminfo (record f { pos = 16 * temp.0 + 8 }) in
    let sim = siminfo.0 in
    let npc = fread_u64 unset.npc (siminfo.1) in
    let intregs = fread_regs 32 p.info.intregs (npc.1) in
    let fpregs = fread_regs 32 p.info.fpregs (intregs.1) in
    elim (alloc_memrange kernel unset.memrange (fpregs.1) p.memory) [
      | none ↦ none
      | some mapped ↦
          let loaded = set_fist_load unset.load (mapped.1) (mapped.0) in
          let q = replace_exit (
            read_ckptsyscall kernel (loaded.1) (record p {
              info = record (p.info) {
                exitpc = sim.exitpc;
                exit_cause = sim.exit_cause % 4;
                intregs = intregs.0;
                fpregs = fpregs.0;
              };
              memory = loaded.0;
            })) in
          some (
            record q {
              info = start_info clock q.info;
              temp = update (update q.temp 2 (npc.0)) 3 take_over_addr;
            },
            simulated sim,
          )
    ]
