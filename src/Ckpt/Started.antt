-- ===== src/Ckpt/Started.antt =====
-- readckpt.cpp, and the state in which the loaded program starts.
use boom_stop.Base.{
  ℕ, ◌+◌, ◌*◌, ◌%◌, ◌≤◌, ◌≡◌, refl, ◌∙◌, ◌&&◌, inl, inr, ◌==◌, if◌then◌else◌, arith, Bool-cases,
  Option, some, none, update,
}
use boom_stop.Ckpt.{Process, le_byte, read_le, ecall_replace, cause_exit_inst}
use boom_stop.Ckpt.Takeover.{CallClock}
use boom_stop.Ckpt.Log.{Apart, fill-Agree}
use boom_stop.Ckpt.Answered.{Intact}
use boom_stop.Ckpt.Stream.{CkptFile, Os, fread_u64, fread_regs, map_zero}
use boom_stop.Ckpt.Load.{
  Unset, SimInfo, Simulated, simulated, fread_siminfo, alloc_memrange, set_fist_load,
  read_ckptsyscall, replace_exit, start_info, read_ckptinfo,
}
use boom_stop.Ckpt.Elf.{running_info_addr, loadelf}
use boom_stop.Ckpt.Patch.Ready.{
  Good, left_size, file_place, file_log, file_total, read_ckptsyscall-Ready,
}
use boom_stop.Ckpt.Replay.Run.{read_le-write_le}

-- `main`, for two names of files that are there: the file of the checkpoint, which is opened twice, and
-- that of the program.
unfoldable pub main :
    Os
    → (ehdr phdr shdr : ℕ → ℕ) (unset : Unset) (take_over_addr : ℕ) → CallClock
    → (ckptinfo prog : CkptFile) → Process
    → Option (Process × Simulated)
main kernel ehdr phdr shdr unset take_over_addr clock ckptinfo prog p =
    if kernel.fixed running_info_addr 8192 == running_info_addr
    then elim (loadelf kernel ehdr phdr shdr ckptinfo prog
        (map_zero running_info_addr 8192 p.memory)) [
          | none ↦ none
          | some memory ↦
              read_ckptinfo kernel unset take_over_addr clock ckptinfo
                (record p { memory = memory })
        ]
    else none

-- The jump into the program.
abbrev launch : CallClock → (npc take_over_addr : ℕ) → Process → Process
launch clock npc take_over_addr q = record q {
  info = start_info clock q.info;
  temp = update (update q.temp 2 npc) 3 take_over_addr;
}

module _ (kernel : Os) (calls : CkptFile) (good : Good kernel calls) where
  -- The program starts at `npc` with its registers, the first of its calls next; where the run has no
  -- calls and is to end at an instruction, that one is replaced.
  pub record Started (intregs fpregs : ℕ → ℕ) (exitpc exit_cause npc : ℕ) (q : Process)
      : Type 0 where
    pub intact :
        Intact
          (file_log kernel calls)
          (file_place kernel calls)
          (file_place kernel calls + left_size calls)
          (file_total kernel calls)
          (good.is_log)
          q
    pub first : q.info.nowcallnum ≡ 0
    pub registers : (q.info.intregs ≡ intregs) × (q.info.fpregs ≡ fpregs)
    pub exit_at : (q.info.exitpc ≡ exitpc) × (q.info.exit_cause ≡ exit_cause)
    pub at_npc : q.temp 2 ≡ npc
    pub exit_replaced :
        file_total kernel calls ≡ 0
        → exit_cause ≡ cause_exit_inst
        → read_le q.memory exitpc 4 ≡ ecall_replace

  launched :
      (clock : CallClock) (npc take_over_addr : ℕ) (q : Process)
      → Intact
          (file_log kernel calls)
          (file_place kernel calls)
          (file_place kernel calls + left_size calls)
          (file_total kernel calls)
          (good.is_log)
          q
      → q.info.nowcallnum ≡ 0
      → Started q.info.intregs q.info.fpregs q.info.exitpc q.info.exit_cause npc
          (launch clock npc take_over_addr (replace_exit q))
  launched clock npc take_over_addr q ok none_yet =
      elim (Bool-cases (q.info.totalcallnum == 0 && q.info.exit_cause == cause_exit_inst)) [
        | inl t ↦ rw t (record {
          intact = record {
            placed = ok.placed;
            counted = ok.counted;
            not_past = ok.not_past;
            same =
                fill-Agree (file_place kernel calls) (file_place kernel calls + left_size calls)
                  q.info.exitpc 4 (file_log kernel calls) q.memory (le_byte ecall_replace) ok.same
                  ok.exit_apart;
            exit_apart = ok.exit_apart;
          };
          first = none_yet;
          registers = (refl, refl);
          exit_at = (refl, refl);
          at_npc = refl;
          exit_replaced = λ _ _. read_le-write_le q.info.exitpc q.memory;
        })
        | inr n ↦ rw n (record {
          intact = record {
            placed = ok.placed;
            counted = ok.counted;
            not_past = ok.not_past;
            same = ok.same;
            exit_apart = ok.exit_apart;
          };
          first = none_yet;
          registers = (refl, refl);
          exit_at = (refl, refl);
          at_npc = refl;
          exit_replaced = λ zero_calls cause.
              let total = ok.counted ∙ zero_calls in absurd (ground (arith, total, cause, n));
        })
      ]

module _ (kernel : Os) (unset : Unset) (f : CkptFile) (p : Process) where
  -- What is read up to the ranges of memory.
  abbrev pub sim_read : SimInfo × CkptFile
  sim_read = fread_siminfo unset.siminfo (record f { pos = 16 * (fread_u64 0 f).0 + 8 })

  abbrev pub npc_read : ℕ × CkptFile
  npc_read = fread_u64 unset.npc (sim_read.1)

  abbrev pub intregs_read : (ℕ → ℕ) × CkptFile
  intregs_read = fread_regs 32 p.info.intregs (npc_read.1)

  abbrev pub fpregs_read : (ℕ → ℕ) × CkptFile
  fpregs_read = fread_regs 32 p.info.fpregs (intregs_read.1)

  -- The process before its calls are read.
  abbrev pub filled : (memory : ℕ → ℕ) → Process
  filled memory = record p {
    info = record (p.info) {
      exitpc = sim_read.0.exitpc;
      exit_cause = sim_read.0.exit_cause % 4;
      intregs = intregs_read.0;
      fpregs = fpregs_read.0;
    };
    memory = memory;
  }

  module _ (memory : ℕ → ℕ) (rest : CkptFile) where
    -- The memory and the place in the file after the first loads.
    abbrev pub loads_read : (ℕ → ℕ) × CkptFile
    loads_read = set_fist_load unset.load rest memory

    -- When the ranges of memory can be mapped and the rest of the file is a record of calls that
    -- can be put in place, read_ckptinfo starts the program at the npc and with the registers that
    -- the file holds, the record in memory and its first call next; where there are no calls and
    -- the run is to end at an instruction, that one has been replaced.
    pub read_ckptinfo-Started :
        (take_over_addr : ℕ) (clock : CallClock)
        → alloc_memrange kernel unset.memrange (fpregs_read.1) p.memory ≡ some (memory, rest)
        → (good : Good kernel (loads_read.1)) → 8 ≤ left_size (loads_read.1)
        → Apart
            (file_place kernel (loads_read.1))
            (file_place kernel (loads_read.1) + left_size (loads_read.1))
            (sim_read.0.exitpc)
            4
        → (q : Process) × (read_ckptinfo kernel unset take_over_addr clock f p
            ≡ some (q, simulated (sim_read.0)))
          × Started kernel
              (loads_read.1)
              good
              (intregs_read.0)
              (fpregs_read.0)
              (sim_read.0.exitpc)
              (sim_read.0.exit_cause % 4)
              (npc_read.0)
              q
    unfolding read_ckptinfo read_ckptsyscall
    read_ckptinfo-Started take_over_addr clock mapped good long apart =
        let start = filled (loads_read.0) in
        let ready = read_ckptsyscall-Ready kernel (loads_read.1) start good long apart in
        let q = read_ckptsyscall kernel (loads_read.1) start in
        (
          launch clock (npc_read.0) take_over_addr (replace_exit q),
          rw (mapped, read_ckptinfo) refl,
          launched kernel (loads_read.1) good clock (npc_read.0) take_over_addr q ready.intact refl,
        )
