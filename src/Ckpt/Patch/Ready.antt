-- ===== src/Ckpt/Patch/Ready.antt =====
-- What `read_ckptsyscall` leaves, from the file: a process whose calls can be replayed.
use boom_stop.Base.{ℕ, ◌+◌, ◌-◌, ◌%◌, ◌≤◌, ◌<◌, ◌≡◌, refl, true, ◌&&◌, fill, leb, ltb, arith}
use boom_stop.Ckpt.{Process, read_le}
use boom_stop.Ckpt.Log.{Agree, Apart, read_le-Agree}
use boom_stop.Ckpt.Answered.{Intact}
use boom_stop.Ckpt.Stream.{CkptFile, Os, map_zero}
use boom_stop.Ckpt.Load.{allocsize, syscall_hint, read_ckptsyscall}
use boom_stop.Ckpt.Patch.{Patchable, AllPatched, replace_ecalls-all}

-- The bytes that the file has left.
abbrev pub left_size : CkptFile → ℕ
left_size f = f.size - f.pos

-- More is mapped than the file has left, in whole pages.
pub allocsize_pages :
    (filesize : ℕ)
    → (allocsize filesize % 4096 ≡ 0)
      × (filesize < allocsize filesize)
      × (allocsize filesize ≤ filesize + 4096)
allocsize_pages filesize = (omega arith, omega arith, omega arith)

-- Where they go, and what is there then.
abbrev pub file_place : Os → CkptFile → ℕ
file_place kernel f = kernel.place syscall_hint (allocsize (left_size f))

abbrev pub file_log : Os → CkptFile → (ℕ → ℕ)
file_log kernel f a = f.content (f.pos + (a - file_place kernel f))

abbrev pub file_total : Os → CkptFile → ℕ
file_total kernel f = read_le (file_log kernel f) (file_place kernel f) 8

abbrev pub file_memory : Os → CkptFile → (ℕ → ℕ) → (ℕ → ℕ)
file_memory kernel f memory =
    fill (map_zero (file_place kernel f) (allocsize (left_size f)) memory) (file_place kernel f)
      (left_size f) (λ i. f.content (f.pos + i))

file_memory-Agree :
    (kernel : Os) (f : CkptFile) (memory : ℕ → ℕ)
    → Agree
        (file_place kernel f)
        (file_place kernel f + left_size f)
        (file_log kernel f)
        (file_memory kernel f memory)
file_memory-Agree kernel f memory a l h =
    let inside : (leb (file_place kernel f) a && ltb a (file_place kernel f + left_size f)) ≡ true =
      ground arith in
    rw inside refl

abbrev pub Good : Os → CkptFile → Type 0
Good kernel f =
    Patchable (file_log kernel f) (file_place kernel f) (file_place kernel f + left_size f)
      (file_total kernel f)

module _ (kernel : Os) (f : CkptFile) (p : Process) where
  pub record Ready (good : Good kernel f) (q : Process) : Type 0 where
    pub intact :
        Intact
          (file_log kernel f)
          (file_place kernel f)
          (file_place kernel f + left_size f)
          (file_total kernel f)
          (good.is_log)
          q
    pub first : q.info.nowcallnum ≡ 0
    pub patched :
        AllPatched
          (file_log kernel f)
          (file_place kernel f)
          (file_place kernel f + left_size f)
          (file_total kernel f)
          0
          (file_total kernel f)
          (file_memory kernel f p.memory)
          q.memory

  -- If the rest of the file is a record of calls that lies whole in it, whose instructions do not
  -- overlap and are, like the end of the run, outside of where it is placed, read_ckptsyscall
  -- leaves it in memory with its first call next; the instruction of each call is the jump to the
  -- loader, and every other byte is what mapping and reading the file left.
  pub read_ckptsyscall-Ready :
      (good : Good kernel f)
      → 8 ≤ left_size f
      → Apart (file_place kernel f) (file_place kernel f + left_size f) p.info.exitpc 4
      → Ready good (read_ckptsyscall kernel f p)
  unfolding read_ckptsyscall
  read_ckptsyscall-Ready good long apart =
      let agree = file_memory-Agree kernel f p.memory in
      let total =
        read_le-Agree (file_place kernel f) (file_place kernel f + left_size f)
          (file_place kernel f) 8 (file_log kernel f) (file_memory kernel f p.memory) agree
          (omega arith) (omega arith) in
      let all =
        replace_ecalls-all (file_log kernel f) (file_place kernel f)
          (file_place kernel f + left_size f) (file_total kernel f) good
          (file_memory kernel f p.memory) agree in
      rw total (record {
        intact = record {
          placed = refl;
          counted = refl;
          not_past = omega arith;
          same = all.same;
          exit_apart = apart;
        };
        first = refl;
        patched = all;
      })
