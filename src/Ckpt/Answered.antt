-- ===== src/Ckpt/Answered.antt =====
-- How `takeoverSyscall` answers a call, from the record of the calls.
use boom_stop.Base.{
  ℕ, ◌+◌, ◌%◌, ◌≤◌, ◌<◌, ◌≡◌, refl, ◌∙◌, true, ◌&&◌, inl, inr, fill, ◌==◌, if◌then◌else◌, arith,
  Bool-cases,
}
use boom_stop.Ckpt.{
  Process, read_le, write_le, info_pc, info_p0, info_ret, info_data_offset, ecall_replace,
  cause_exit_inst,
}
use boom_stop.Ckpt.Takeover.{process_data}
use boom_stop.Ckpt.Log.{
  Agree, Apart, read_le-Agree, fill-Agree, copy_data-fill, IsLog, recorded, data_offset, data_size,
  bufaddr, has_data,
}

module _ (log : ℕ → ℕ) (lo hi total : ℕ) (is_log : IsLog log lo hi total) where
  -- The memory with the data of call `i`.
  abbrev pub delivered : (i : ℕ) (memory : ℕ → ℕ) → (ℕ → ℕ)
  delivered i memory =
      if has_data log lo hi total i
      then fill memory (bufaddr log lo hi total i) (data_size log lo hi total i)
          (λ k. log (lo + data_offset log lo hi total i + 8 + k))
      else memory

  -- The 64-bit entry_field `k` bytes into the entry of a call.
  pub entry_field :
      (i k : ℕ) (memory : ℕ → ℕ)
      → i < total
      → k + 8 ≤ 40
      → Agree lo hi log memory
      → read_le memory (recorded log lo hi total i + k) 8
        ≡ read_le log (recorded log lo hi total i + k) 8
  entry_field i k memory low inside same =
      read_le-Agree lo hi (recorded log lo hi total i + k) 8 log memory same (omega arith)
        (omega (arith, is_log.entries i low))

  pub delivered-Agree :
      (i : ℕ) (memory : ℕ → ℕ)
      → i < total
      → Agree lo hi log memory
      → Agree lo hi log (delivered i memory)
  delivered-Agree i memory low same = elim (Bool-cases (has_data log lo hi total i)) [
    | inl t ↦ rw t (
        fill-Agree lo hi (bufaddr log lo hi total i) (data_size log lo hi total i) log memory
          (λ k. log (lo + data_offset log lo hi total i + 8 + k)) same (is_log.buffers i low t))
    | inr f ↦ rw f same
  ]

  pub process_data-delivered :
      (i : ℕ) (memory : ℕ → ℕ)
      → i < total
      → Agree lo hi log memory
      → (a : ℕ) → process_data lo (recorded log lo hi total i) memory a ≡ delivered i memory a
  unfolding process_data
  process_data-delivered i memory low same a =
      let off = entry_field i 32 memory low (omega arith) same in
      let num = entry_field i 8 memory low (omega arith) same in
      elim (Bool-cases (data_offset log lo hi total i == 0xffffffff)) [
        | inl none_there ↦ rw (off, none_there) refl
        | inr there ↦
            let buf =
              read_le-Agree lo hi (lo + data_offset log lo hi total i) 8 log memory same
                (omega arith) (is_log.headers i low there) in
            elim (Bool-cases (bufaddr log lo hi total i == 0)) [
              | inl null ↦ rw (off, there, buf, null) refl
              | inr used ↦
                  let t : has_data log lo hi total i ≡ true = rw (there, used) refl in
                  let from = lo + data_offset log lo hi total i + 8 in
                  let size = data_size log lo hi total i in
                  let start : bufaddr log lo hi total i + 0 ≡ bufaddr log lo hi total i =
                    omega arith in
                  let first : from + 0 ≡ from = omega arith in
                  rw (off, num, there, buf, used)
                    (copy_data-fill lo hi size 0 size (bufaddr log lo hi total i) from log memory
                        (omega arith) same (omega arith) (is_log.contents i low t)
                        (is_log.buffers i low t) a
                      ∙ rw (start, first) refl)
            ]
      ]

  -- What the program finds in a0.
  abbrev pub answer : (i : ℕ) → ℕ
  answer i =
      if info_data_offset log (recorded log lo hi total i) % 256 == 0
      then info_p0 log (recorded log lo hi total i)
      else info_ret log (recorded log lo hi total i)

  -- The memory after call `i`: with its data, and the instruction at `exitpc` replaced if that was the
  -- last call and the run ends at an instruction.
  abbrev pub memory_after : (i : ℕ) → Process → (ℕ → ℕ)
  memory_after i p =
      if i + 1 == total && p.info.exit_cause == cause_exit_inst
      then write_le p.info.exitpc 4 ecall_replace (delivered i p.memory)
      else delivered i p.memory

  -- The record of the calls is in place, the number of the next call is not past the end, and the
  -- instruction where the run ends is none of the record.
  pub record Intact (p : Process) : Type 0 where
    pub placed : p.info.syscall_info_addr ≡ lo
    pub counted : p.info.totalcallnum ≡ total
    pub not_past : p.info.nowcallnum ≤ total
    pub same : Agree lo hi log p.memory
    pub exit_apart : Apart lo hi p.info.exitpc 4

  pub record Answered (i : ℕ) (regs : ℕ → ℕ) (p q : Process) : Type 0 where
    pub next : q.info.nowcallnum ≡ i + 1
    pub registers : (r : ℕ) → q.info.intregs r ≡ (if r == 10 then answer i else regs r)
    pub goes_on : q.temp 2 ≡ info_pc log (recorded log lo hi total i) + 4
    pub writes : (a : ℕ) → q.memory a ≡ memory_after i p a
    pub intact : Intact q
    pub same_exit : (q.info.exitpc ≡ p.info.exitpc) × (q.info.exit_cause ≡ p.info.exit_cause)
