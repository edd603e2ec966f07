-- ===== src/Pk/Mmap/Brk/Shrink.antt =====
-- A break that is not raised: `do_brk` returns, with the request cut to the heap's range, and the pages
-- behind the break are no longer mapped.
use boom_stop.Base.{
  ℕ, inl, inr, ◌+◌, ◌-◌, ◌*◌, ◌/◌, ◌%◌, ◌^◌, ◌<◌, ◌≤◌, ◌≡◌, refl, sym, ◌∙◌, ap, ◌≢◌, Bool, true,
  false, ◌&&◌, arith, ◌==◌, ltb, leb, if◌then◌else◌, Bool-cases,
}
use boom_stop.Base.Cmd.{Returns, returns, Returns-and_then}
use boom_stop.Pk.Frontend.{Host}
use boom_stop.Pk.Mmap.State.{Kernel, pgsize, lock, spinlock_lock_free, spinlock_unlock}
use boom_stop.Pk.Mmap.Walk.{pte_at}
use boom_stop.Pk.Mmap.Walk.Create.{Pool, pte_at_lem}
use boom_stop.Pk.Mmap.Map.{page_rounds}
use boom_stop.Pk.Mmap.Map.Erase.{
  Erased, covers, page_rounds-touches, munmap_locked-Erased, lock-Pool, pte_at-lock,
}
use boom_stop.Pk.Mmap.Brk.{round_up, set_brk, move_brk, brk_locked, do_brk}

-- The pages from the new break to the old one.
abbrev behind : (new old b : ℕ) → Bool
behind new old b = covers (page_rounds new (old - new)) new b

move_brk-Erased :
    (host : Host) (level up : ℕ → ℕ) (new : ℕ) (k : Kernel)
    → Pool level up k
    → new ≤ k.current.brk
    → new < 2 ^ 63
    → Returns (λ _ k'. Erased level up (behind new k.current.brk) k k') (move_brk host new k)
unfolding move_brk
move_brk-Erased host level up new k pool le small = elim (Bool-cases (ltb new k.current.brk)) [
  | inl t ↦ rw t (munmap_locked-Erased host level up new (k.current.brk - new) k pool)
  | inr t ↦
      let u : ltb k.current.brk new ≡ false = ground arith in
      let none : page_rounds new (k.current.brk - new) ≡ 0 = ground arith in
      rw (t, u)
        (returns
          (record { pool = pool; pages = λ b. rw none refl; walks = λ b. refl; rest = refl }))
]

behind-range :
    (new old b : ℕ)
    → new ≤ old
    → new % 4096 ≡ 0
    → old % 4096 ≡ 0
    → old ≤ 2 ^ 38
    → b < 2 ^ 39
    → behind new old b ≡ (leb new b && ltb b old)
behind-range new old b le aligned old_aligned top small =
    let end : new + (old - new + 4095) / 4096 * 4096 ≡ old = omega arith in
    page_rounds-touches new (old - new) b aligned (omega arith) small ∙ rw end refl

round_up-le :
    (a : ℕ)
    → 0 < a
    → a < 2 ^ 63
    → (a ≤ round_up a) × (round_up a % pgsize ≡ 0) × (round_up a < a + pgsize)
round_up-le a pos small = omega arith

-- The request, or the end of the heap's range that is next to it.
abbrev pub nearest : (lo hi addr : ℕ) → ℕ
nearest lo hi addr = if ltb addr lo then lo else if ltb hi addr then hi else addr

-- What a call that does not raise the break leaves.
pub record Shrunk (level up : ℕ → ℕ) (k : Kernel) (addr r : ℕ) (k' : Kernel) : Type 0 where
  pub result : r ≡ nearest k.current.brk_min k.current.brk_max addr
  pub covers : r ≤ k'.current.brk
  pub tight : k'.current.brk < r + pgsize
  pub aligned : k'.current.brk % pgsize ≡ 0
  pub pages :
      (b : ℕ)
      → b < 2 ^ 39
      → pte_at k' b ≡ (if leb k'.current.brk b && ltb b k.current.brk then 0 else pte_at k b)
  pub pool : Pool level up k'
  pub same_bytes : k'.byte ≡ k.byte
  pub unlocked : k'.vm_lock ≡ false

-- What is left in front of the end of the lock.
record Moved (level up : ℕ → ℕ) (k : Kernel) (new r : ℕ) (k' : Kernel) : Type 0 where
  result : r ≡ new
  brk : k'.current.brk ≡ round_up new
  pages : (b : ℕ) → pte_at k' b ≡ (if behind (round_up new) k.current.brk b then 0 else pte_at k b)
  pool : Pool level up k'
  same_bytes : k'.byte ≡ k.byte

unlocked-Shrunk :
    (level up : ℕ → ℕ) (k : Kernel) (new addr r : ℕ) (k2 : Kernel)
    → Moved level up k new r k2
    → new ≡ nearest k.current.brk_min k.current.brk_max addr
    → round_up new ≤ k.current.brk
    → (new ≤ round_up new) × (round_up new % pgsize ≡ 0) × (round_up new < new + pgsize)
    → k.current.brk % pgsize ≡ 0
    → k.current.brk ≤ 2 ^ 38
    → Shrunk level up k addr r (lock false k2)
unlocked-Shrunk level up k new addr r k2 m e le (above, aligned, near) at_page top = record {
  result = m.result ∙ e;
  covers = omega (arith, m.result, m.brk, above);
  tight = omega (arith, m.result, m.brk, near);
  aligned = omega (arith, m.brk, aligned);
  pages = λ b low.
      let range = behind-range (round_up new) k.current.brk b le aligned at_page top low in
      pte_at-lock false k2 b
      ∙ m.pages b
      ∙ ap (λ c. if c then 0 else pte_at k b) range
      ∙ ap (λ n. if leb n b && ltb b k.current.brk then 0 else pte_at k b) (sym m.brk);
  pool = lock-Pool false k2 m.pool;
  same_bytes = m.same_bytes;
  unlocked = refl;
}

-- With the lock free, page tables that are a tree, the break set before, at a page boundary and at most
-- 2 ^ 38, and the heap's range not empty, above 0 and below 2 ^ 63, a do_brk that does not raise the break
-- past its page returns the request, or the end of the range that is next to it; the break that it keeps
-- is the next page boundary; exactly the pages between that and the old break lose their entry; the page
-- tables are a tree still, no byte is written and the lock is free.
pub do_brk-Shrunk :
    (host : Host) (level up : ℕ → ℕ) (addr : ℕ) (k : Kernel)
    → Pool level up k
    → k.vm_lock ≡ false
    → k.current.brk ≢ 0
    → k.current.brk % pgsize ≡ 0
    → k.current.brk ≤ 2 ^ 38
    → 0 < k.current.brk_min
    → k.current.brk_min ≤ k.current.brk_max
    → k.current.brk_max < 2 ^ 63
    → round_up (nearest k.current.brk_min k.current.brk_max addr) ≤ k.current.brk
    → Returns (Shrunk level up k addr) (do_brk host addr k)
unfolding do_brk brk_locked spinlock_unlock
do_brk-Shrunk host level up addr k pool free started at_page top pos range small le =
    let s : (k.current.brk == 0) ≡ false = ground arith in
    let new : ℕ = nearest k.current.brk_min k.current.brk_max addr in
    let bounds : (k.current.brk_min ≤ new) × (new ≤ k.current.brk_max) = ground arith in
    let rounded = round_up-le new (omega (arith, bounds)) (omega (arith, bounds)) in
    rw (spinlock_lock_free k free, s)
      (Returns-and_then {P = Moved level up k new}
        (Returns-and_then
          (move_brk-Erased host level up (round_up new) (record k { vm_lock = true })
            (lock-Pool true k pool) le (omega (arith, le, top)))
          λ _ k1 e. returns (record {
            result = refl;
            brk = refl;
            pages = λ b.
                (let k3 : Kernel = set_brk (round_up new) k1 in
                  pte_at_lem k3 b ∙ sym (pte_at_lem k1 b))
                ∙ e.pages b
                ∙ rw (pte_at-lock true k b) refl;
            pool = record { tree = e.pool.tree; fits = e.pool.fits; positive = e.pool.positive };
            same_bytes = ap (λ x. x.byte) e.rest;
          }))
        λ r k2 m. returns (unlocked-Shrunk level up k new addr r k2 m refl le rounded at_page top))
