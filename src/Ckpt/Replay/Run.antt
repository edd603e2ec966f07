-- ===== src/Ckpt/Replay/Run.antt =====
-- The replay of the system calls by `takeoverSyscall`, call after call until the end.
use boom_stop.Base.{
  ℕ, ◌+◌, ◌-◌, ◌≤◌, ◌<◌, ◌≡◌, refl, ◌∙◌, fun_ext, true, ◌&&◌, leb, ltb, ◌==◌, ==_self, le→leb,
  subst, arith, List, [], ◌∷◌, length,
}
use boom_stop.Ckpt.{
  Process, RunningInfo, read_le, write_le, le_byte, ecall_replace, cause_exit_inst,
}
use boom_stop.Ckpt.Takeover.{
  CallClock, Takeover, resumed, overflow, wrong_number, save_context, takeover_syscall,
}
use boom_stop.Ckpt.Log.{IsLog}
use boom_stop.Ckpt.Answered.{memory_after, Intact, Answered}
use boom_stop.Ckpt.Replay.{recorded_number, takeover_syscall-Answered}

write_le_byte :
    (addr k a val : ℕ) (memory : ℕ → ℕ)
    → a ≡ addr + k
    → k < 4
    → write_le addr 4 val memory a ≡ le_byte val k
write_le_byte addr k a val memory e low =
    let inside : (leb addr a && ltb a (addr + 4)) ≡ true = ground arith in
    let place : a - addr ≡ k = omega (arith, e) in rw (inside, place) refl

pub read_le-write_le :
    (addr : ℕ) (memory : ℕ → ℕ)
    → read_le (write_le addr 4 ecall_replace memory) addr 4 ≡ ecall_replace
unfolding read_le
read_le-write_le addr memory =
    let at = λ (k a : ℕ). write_le_byte addr k a ecall_replace memory in
    let b0 = at 0 addr (omega arith) (omega arith) in
    let b1 = at 1 (addr + 1) (omega arith) (omega arith) in
    let b2 = at 2 (addr + 1 + 1) (omega arith) (omega arith) in
    let b3 = at 3 (addr + 1 + 1 + 1) (omega arith) (omega arith) in rw (b0, b1, b2, b3) refl

-- What the program does up to its next system call: what it leaves in memory, and the registers and
-- counters at the call.
pub record Segment : Type 0 where
  pub clock : CallClock
  pub regs : ℕ → ℕ
  pub writes : (ℕ → ℕ) → (ℕ → ℕ)

abbrev pub run : Segment → Process → Process
run s p = record p { memory = s.writes p.memory }

unfoldable pub replay : List Segment → Process → Takeover
replay [] p = resumed p
replay (s ∷ rest) p = elim (takeover_syscall s.clock s.regs (run s p)) [
  | overflow q ↦ overflow q
  | wrong_number q ↦ wrong_number q
  | resumed q ↦ replay rest q
]

module _ (log : ℕ → ℕ) (lo hi total : ℕ) (is_log : IsLog log lo hi total) where
  -- The program makes the recorded calls from number `i` on, and writes none of their record.
  abbrev pub Follows : (i : ℕ) → List Segment → Type 0
  Follows i [] = Unit
  Follows i (s ∷ rest) =
      (s.regs 17 ≡ recorded_number log lo hi total is_log i)
      × ((memory : ℕ → ℕ) (a : ℕ) → lo ≤ a → a < hi → s.writes memory a ≡ memory a)
      × Follows (i + 1) rest

  run-Intact :
      (s : Segment) (p : Process)
      → ((memory : ℕ → ℕ) (a : ℕ) → lo ≤ a → a < hi → s.writes memory a ≡ memory a)
      → Intact log lo hi total is_log p
      → Intact log lo hi total is_log (run s p)
  run-Intact s p quiet ok = record {
    placed = ok.placed;
    counted = ok.counted;
    not_past = ok.not_past;
    same = λ a l h. quiet p.memory a l h ∙ ok.same a l h;
    exit_apart = ok.exit_apart;
  }

  -- The end of the run: all calls are answered, a further one ends the loader, and where the run is to
  -- end at an instruction that one now jumps to the loader.
  pub record Ended (start : RunningInfo) (q : Process) : Type 0 where
    pub all_answered : q.info.nowcallnum ≡ total
    pub intact : Intact log lo hi total is_log q
    pub stops :
        (s : Segment)
        → takeover_syscall s.clock s.regs (run s q)
          ≡ overflow (record (run s q) { info = save_context s.clock s.regs q.info })
    pub exit_replaced :
        start.exit_cause ≡ cause_exit_inst → read_le q.memory start.exitpc 4 ≡ ecall_replace

  Answered-Ended :
      (i : ℕ) (regs : ℕ → ℕ) (p q : Process)
      → i + 1 ≡ total
      → Answered log lo hi total is_log i regs p q
      → Ended p.info q
  unfolding takeover_syscall
  Answered-Ended i regs p q e ans =
      let all = ans.next ∙ e in
      let past : leb q.info.totalcallnum q.info.nowcallnum ≡ true =
        rw (ans.intact.counted, all) (le→leb total total (omega arith)) in
      record {
        all_answered = all;
        intact = ans.intact;
        stops = λ s. rw (past, takeover_syscall) refl;
        exit_replaced = λ cause.
            let last : (i + 1 == total) ≡ true = rw e (==_self total) in
            let m : q.memory ≡ memory_after log lo hi total is_log i p = fun_ext ans.writes in
            rw m (rw (last, cause) (read_le-write_le p.info.exitpc _));
      }

  -- The end does not depend on where the run began.
  Ended-earlier :
      (i : ℕ) (regs : ℕ → ℕ) (p q r : Process)
      → Answered log lo hi total is_log i regs p q
      → Ended q.info r
      → Ended p.info r
  Ended-earlier i regs p q r ans end = record {
    all_answered = end.all_answered;
    intact = end.intact;
    stops = end.stops;
    exit_replaced = λ cause.
        subst (λ pc. read_le r.memory pc 4 ≡ ecall_replace) (ans.same_exit.0)
          (end.exit_replaced (ans.same_exit.1 ∙ cause));
  }

  replay_step :
      (s : Segment) (rest : List Segment) (p q : Process)
      → takeover_syscall s.clock s.regs (run s p) ≡ resumed q
      → replay (s ∷ rest) p ≡ replay rest q
  unfolding replay
  replay_step s rest p q e = rw (e, replay) refl

  -- With a record of calls in place that gets none of its own data, and the end of the run outside
  -- of it, a program that makes the recorded calls that are left, one at least, in their order, and
  -- writes none of the record, has every one answered whatever else it does with its memory and
  -- registers; after the last one the record is still in place, a further call ends the loader, and
  -- where the run is to end at an instruction that one has been replaced.
  pub replay-Ended :
      (s : Segment) (rest : List Segment) (p : Process)
      → Intact log lo hi total is_log p
      → Follows p.info.nowcallnum (s ∷ rest)
      → p.info.nowcallnum + length (s ∷ rest) ≡ total
      → (q : Process) × (replay (s ∷ rest) p ≡ resumed q) × Ended p.info q
  unfolding replay
  replay-Ended s [] p ok f e =
      let a =
        takeover_syscall-Answered log lo hi total is_log s.clock s.regs (run s p) (omega arith)
          (f.0) (run-Intact s p (f.1) ok) in
      (
        a.0,
        replay_step s [] p (a.0) (a.1),
        Answered-Ended _ s.regs (run s p) (a.0) (omega arith) (a.2),
      )
  replay-Ended s (t ∷ rest) p ok f e =
      let a =
        takeover_syscall-Answered log lo hi total is_log s.clock s.regs (run s p) (omega arith)
          (f.0) (run-Intact s p (f.1) ok) in
      let next = a.2.next in
      let later = replay-Ended t rest (a.0) (a.2.intact) (rw next (f.2)) (omega (arith, next, e)) in
      (
        later.0,
        replay_step s (t ∷ rest) p (a.0) (a.1) ∙ later.1,
        Ended-earlier p.info.nowcallnum s.regs (run s p) (a.0) (later.0) (a.2) (later.2),
      )
