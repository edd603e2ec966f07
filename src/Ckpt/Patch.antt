-- ===== src/Ckpt/Patch.antt =====
-- The instructions that `read_ckptsyscall` replaces.
pub mod Ready
use boom_stop.Base.{
  ℕ, zero, suc, ◌+◌, ◌-◌, ◌*◌, ◌/◌, ◌%◌, ◌^◌, ◌≤◌, ◌<◌, ◌≡◌, refl, sym, ◌∙◌, ap, subst, Bool, true,
  false, not, ◌&&◌, ◌||◌, ◌⊎◌, inl, inr, update, fill, leb, ltb, ◌==◌, if◌then◌else◌, arith,
  Bool-cases, List, [], ◌∷◌,
}
use boom_stop.Ckpt.{read_le, write_le, le_byte, ecall_replace, sysidx, sinfo_at, info_pc}
use boom_stop.Ckpt.Log.{Agree, Apart, read_le-Agree, fill-Agree, IsLog, recorded}
use boom_stop.Ckpt.Load.{contains, replace_ecalls}

-- Two instructions are the same or do not overlap.
abbrev pub Separate : (pc other : ℕ) → Type 0
Separate pc other = (pc ≡ other) ⊎ ((pc + 4 ≤ other) ⊎ (other + 4 ≤ pc))

-- The replacement stands at an address.
abbrev pub Patched : (pc : ℕ) (memory : ℕ → ℕ) → Type 0
Patched pc memory = (k : ℕ) → k < 4 → memory (pc + k) ≡ le_byte ecall_replace k

write_le-Patched : (pc : ℕ) (memory : ℕ → ℕ) → Patched pc (write_le pc 4 ecall_replace memory)
write_le-Patched pc memory k low =
    let inside : (leb pc (pc + k) && ltb (pc + k) (pc + 4)) ≡ true = ground arith in
    let place : pc + k - pc ≡ k = omega arith in rw (inside, place) refl

keeps-Patched :
    (pc other : ℕ) (memory : ℕ → ℕ)
    → Separate pc other
    → Patched pc memory
    → Patched pc (write_le other 4 ecall_replace memory)
keeps-Patched pc other memory (inl e) p k low = rw (← e) (write_le-Patched pc memory k low)
keeps-Patched pc other memory (inr (inl before)) p k low =
    let out : (leb other (pc + k) && ltb (pc + k) (other + 4)) ≡ false = ground arith in
    rw out (p k low)
keeps-Patched pc other memory (inr (inr behind)) p k low =
    let out : (leb other (pc + k) && ltb (pc + k) (other + 4)) ≡ false = ground arith in
    rw out (p k low)

module _ (log : ℕ → ℕ) (lo hi total : ℕ) where
  abbrev pub call_pc : (i : ℕ) → ℕ
  call_pc i = info_pc log (recorded log lo hi total i)

  -- The instructions of the calls are not in their record, and do not overlap.
  pub record Patchable : Type 0 where
    pub is_log : IsLog log lo hi total
    pub apart : (i : ℕ) → i < total → Apart lo hi (call_pc i) 4
    pub separate : (i j : ℕ) → i < total → j < total → Separate (call_pc i) (call_pc j)

  -- The instructions of the calls from `i` to `j` have been replaced in `after`, and no other byte
  -- is changed.
  pub record AllPatched (i j : ℕ) (memory after : ℕ → ℕ) : Type 0 where
    pub patched : (k : ℕ) → i ≤ k → k < j → Patched (call_pc k) after
    pub others :
        (a : ℕ)
        → ((k : ℕ) → i ≤ k → k < j → (leb (call_pc k) a && ltb a (call_pc k + 4)) ≡ false)
        → after a ≡ memory a
    pub same : Agree lo hi log after

  -- The indices in the set are those of calls whose instruction has been replaced.
  abbrev Known : List ℕ → (ℕ → ℕ) → Type 0
  Known idxs memory =
      (i : ℕ) → i < total → contains (sysidx log lo i) idxs ≡ true → Patched (call_pc i) memory

  abbrev Keeps : (memory after : ℕ → ℕ) → Type 0
  Keeps memory after = (k : ℕ) → k < total → Patched (call_pc k) memory → Patched (call_pc k) after

  -- One call more, before the others.
  one_more :
      (i : ℕ) (memory next after : ℕ → ℕ)
      → i < total
      → Patched (call_pc i) next
      → ((a : ℕ) → (leb (call_pc i) a && ltb a (call_pc i + 4)) ≡ false → next a ≡ memory a)
      → Keeps memory next
      → AllPatched (i + 1) total next after × Keeps next after
      → AllPatched i total memory after × Keeps memory after
  one_more i memory next after low here others keeps later = (
    record {
      patched = λ k l h. elim (Bool-cases (i == k)) [
        | inl e ↦
            let q : i ≡ k = ground arith in
            subst (λ x. Patched (call_pc x) after) q (later.1 i low here)
        | inr n ↦ later.0.patched k (ground arith) h
      ];
      others = λ a out.
          later.0.others a (λ k l h. out k (omega arith) h) ∙ others a (out i (omega arith) low);
      same = later.0.same;
    },
    λ k l p. later.1 k l (keeps k l p),
  )

  step_seen :
      (left i : ℕ) (idxs : List ℕ) (memory : ℕ → ℕ)
      → contains (sysidx memory lo i) idxs ≡ true
      → replace_ecalls (suc left) i lo total idxs memory
        ≡ replace_ecalls left (i + 1) lo total idxs memory
  unfolding replace_ecalls
  step_seen left i idxs memory seen = rw seen refl

  step_new :
      (left i x pc : ℕ) (idxs : List ℕ) (memory : ℕ → ℕ)
      → sysidx memory lo i ≡ x
      → info_pc memory (sinfo_at memory lo total x) ≡ pc
      → contains x idxs ≡ false
      → replace_ecalls (suc left) i lo total idxs memory
        ≡ replace_ecalls left (i + 1) lo total (x ∷ idxs) (write_le pc 4 ecall_replace memory)
  unfolding replace_ecalls
  step_new left i x pc idxs memory idx place new =
      rw (idx, new)
        (ap
          (λ q. replace_ecalls left (i + 1) lo total (x ∷ idxs) (write_le q 4 ecall_replace memory))
          place)

  nothing-Known : (memory : ℕ → ℕ) → Known [] memory
  unfolding contains
  nothing-Known memory i low t = cc t

  module _ (ok : Patchable) where
    -- The set stays one of calls that are done when the call `i` is.
    add-Known :
        (i : ℕ) (idxs : List ℕ) (memory next : ℕ → ℕ)
        → Known idxs memory
        → Keeps memory next
        → Patched (call_pc i) next
        → Known (sysidx log lo i ∷ idxs) next
    unfolding contains
    add-Known i idxs memory next known keeps here j low t =
        elim (Bool-cases (sysidx log lo j == sysidx log lo i)) [
          | inl e ↦
              let q : sysidx log lo i ≡ sysidx log lo j = ground arith in
              subst (λ x. Patched (info_pc log (sinfo_at log lo total x)) next) q here
          | inr n ↦ keeps j low (known j low (rw n at t))
        ]

    replace_ecalls-AllPatched :
        (left i : ℕ) (idxs : List ℕ) (memory : ℕ → ℕ)
        → i + left ≡ total
        → Agree lo hi log memory
        → Known idxs memory
        → AllPatched i total memory (replace_ecalls left i lo total idxs memory)
          × Keeps memory (replace_ecalls left i lo total idxs memory)
    unfolding replace_ecalls
    replace_ecalls-AllPatched zero i idxs memory e same known = (
      record { patched = λ k l h. absurd (omega arith); others = λ _ _. refl; same = same },
      λ k l p. p,
    )
    replace_ecalls-AllPatched (suc left) i idxs memory e same known =
        let low : i < total = omega arith in
        let idx =
          read_le-Agree lo hi (lo + 8 + 4 * i) 4 log memory same (omega arith)
            (omega (arith, ok.is_log.indices)) in
        let pc =
          read_le-Agree lo hi (recorded log lo hi total i) 8 log memory same (omega arith)
            (omega (arith, ok.is_log.entries i low)) in
        elim (Bool-cases (contains (sysidx log lo i) idxs)) [
          | inl seen ↦
              let run = step_seen left i idxs memory (rw idx seen) in
              subst (λ m. AllPatched i total memory m × Keeps memory m) (sym run)
                (one_more i memory memory _ low (known i low seen) (λ _ _. refl) (λ k l p. p)
                  (replace_ecalls-AllPatched left (i + 1) idxs memory (omega arith) same known))
          | inr new ↦
              let next = write_le (call_pc i) 4 ecall_replace memory in
              let run = step_new left i (sysidx log lo i) (call_pc i) idxs memory idx pc new in
              let here : Patched (call_pc i) next = write_le-Patched (call_pc i) memory in
              let keeps : Keeps memory next =
                λ k l p. keeps-Patched (call_pc k) (call_pc i) memory (ok.separate k i l low) p in
              let same1 =
                fill-Agree lo hi (call_pc i) 4 log memory (le_byte ecall_replace) same
                  (ok.apart i low) in
              let later =
                replace_ecalls-AllPatched left (i + 1) (sysidx log lo i ∷ idxs) next (omega arith)
                  same1 (add-Known i idxs memory next known keeps here) in
              subst (λ m. AllPatched i total memory m × Keeps memory m) (sym run)
                (one_more i memory next _ low here (λ a out. rw out refl) keeps later)
        ]

    -- Every call's instruction is replaced, whether or not it was made more than once, and nothing else is.
    pub replace_ecalls-all :
        (memory : ℕ → ℕ)
        → Agree lo hi log memory
        → AllPatched 0 total memory (replace_ecalls total 0 lo total [] memory)
    replace_ecalls-all memory same =
        let none_known : Known [] memory = nothing-Known memory in
        let all = replace_ecalls-AllPatched total 0 [] memory (omega arith) same none_known in all.0
