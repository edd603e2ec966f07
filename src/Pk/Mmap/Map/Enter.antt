-- ===== src/Pk/Mmap/Map/Enter.antt =====
-- The loop of `__do_mmap`, seen from the map of pages.
use boom_stop.Base.{
  ℕ, zero, suc, ◌+◌, ◌*◌, ◌^◌, ◌≤◌, ◌≡◌, ◌≢◌, refl, sym, ◌∙◌, ap, Bool, false, ◌==◌, ltb, inl, inr,
  Bool-cases, arith, if◌then◌else◌, subst,
}
use boom_stop.Base.Cmd.{Returns, returns, Returns-and_then, Returns-mono}
use boom_stop.Pk.Frontend.{Host}
use boom_stop.Pk.Mmap.State.{Kernel, pgsize, vmr_ptr, set_word}
use boom_stop.Pk.Mmap.Walk.{leaf, walk_from, pte_at}
use boom_stop.Pk.Mmap.Walk.Store.{same_page}
use boom_stop.Pk.Mmap.Walk.Create.{
  Pool, Unshared, kept-Unshared, fewer-Unshared, walk_create-Created,
}
use boom_stop.Pk.Mmap.Walk.Keep.{leaf_of, store-Pool, set_word_pages}
use boom_stop.Pk.Mmap.Map.{map_page, map_pages, page_rounds}
use boom_stop.Pk.Mmap.Map.Erase.{covers, both_entries, SameBut, munmap_locked-Erased}

-- Only regions, files, page tables and the count of pages differ.
abbrev pub Grown : Kernel → Kernel → Type 0
Grown k k' =
    k' ≡ record k { io = k'.io; vmr = k'.vmr; mem = k'.mem; next_free_page = k'.next_free_page }

Grown-trans : (k k1 k2 : Kernel) → Grown k k1 → Grown k1 k2 → Grown k k2
Grown-trans k k1 k2 s t =
    t
    ∙ ap {A = Kernel} {B = Kernel}
        (λ x. record x {
          io = k2.io;
          vmr = k2.vmr;
          mem = k2.mem;
          next_free_page = k2.next_free_page;
        })
        s

-- The pages that `named` names have the entry `v`, and the others have the ones that they had.
pub record Entered (v most : ℕ) (named : ℕ → Bool) (k k' : Kernel) : Type 0 where
  pub level : ℕ → ℕ
  pub up : ℕ → ℕ
  pub pool : Pool level up k'
  pub pages : (b : ℕ) → pte_at k' b ≡ (if named b then v else pte_at k b)
  pub taken : k'.next_free_page ≤ k.next_free_page + most
  pub rest : Grown k k'

pub entry_used :
    (a e : ℕ) (k : Kernel) (level up : ℕ → ℕ)
    → Pool level up k
    → walk_from k.mem k.root_page_table a 2 ≡ leaf e
    → e ≢ 0
entry_used a e k level up pool w z =
    let l = leaf_of a e k level up pool w in omega (arith, l.at, l.page.above, pool.positive, z)

store-Entered :
    (v a e most : ℕ) (k k1 : Kernel) (level up : ℕ → ℕ)
    → Pool level up k1
    → walk_from k1.mem k1.root_page_table a 2 ≡ leaf e
    → ((b : ℕ) → same_page a b ≡ false → pte_at k1 b ≡ pte_at k b)
    → k1.next_free_page ≤ k.next_free_page + most
    → Grown k k1
    → Entered v most (same_page a) k (set_word e v k1)
store-Entered v a e most k k1 level up pool w pages taken rest = record {
  level = level;
  up = up;
  pool = store-Pool a e v k1 level up pool w;
  pages = λ b.
      set_word_pages a e v b k1 level up pool w
      ∙ elim (Bool-cases (same_page a b)) [ inl s ↦ rw s refl | inr d ↦ rw (d, pages b d) refl ];
  taken = taken;
  rest = ap (set_word e v) rest;
}

Created-Grown :
    (k k1 : Kernel)
    → k1 ≡ record k { mem = k1.mem; next_free_page = k1.next_free_page }
    → Grown k k1
Created-Grown k k1 s =
    s
    ∙ ap {A = Kernel} {B = Kernel}
        (λ x. record k { io = x.io; vmr = x.vmr; mem = k1.mem; next_free_page = k1.next_free_page })
        (sym s)

SameBut-Grown : (k k1 : Kernel) → SameBut k k1 → Grown k k1
SameBut-Grown k k1 s =
    s
    ∙ ap {A = Kernel} {B = Kernel}
        (λ x. record k {
          io = k1.io;
          vmr = k1.vmr;
          mem = k1.mem;
          next_free_page = x.next_free_page;
        })
        (sym s)

one_round : (a b : ℕ) → same_page a b ≡ false → covers (page_rounds a pgsize) a b ≡ false
one_round a b d = elim (Bool-cases (ltb (a + pgsize) (2 ^ 64))) [
  | inl t ↦ rw (t, d) refl
  | inr f ↦ rw f refl
]

module _ (host : Host) (v : ℕ) where
  pub map_page-Entered :
      (a : ℕ) (k : Kernel) (level up : ℕ → ℕ)
      → Pool level up k
      → k.next_free_page + 2 ≤ k.free_pages
      → Unshared 2 k
      → Returns (λ _ k'. Entered (vmr_ptr k v) 2 (same_page a) k k') (map_page host v a k)
  unfolding map_page
  map_page-Entered a k level up pool room unshared =
      Returns-and_then (walk_create-Created a k level up pool room unshared) λ e k1 c.
        let f : (e == 0) ≡ false =
          (let n = entry_used a e k1 c.level c.up c.pool c.at in ground arith) in
        let same : vmr_ptr k1 v ≡ vmr_ptr k v = ap (λ x. vmr_ptr x v) c.rest in
        rw f (elim (Bool-cases (k1.mem e == 0)) [
          | inl z ↦ rw z (
              returns (
                subst (λ x. Entered x 2 (same_page a) k (set_word e (vmr_ptr k1 v) k1)) same
                  (store-Entered (vmr_ptr k1 v) a e 2 k k1 c.level c.up c.pool c.at
                    (λ b d. c.pages b) c.taken (Created-Grown k k1 c.rest))))
          | inr z ↦ rw z (
              Returns-and_then (munmap_locked-Erased host c.level c.up a pgsize k1 c.pool) λ _ k2 r.
                returns (
                  let same2 : vmr_ptr k2 v ≡ vmr_ptr k v = ap (λ x. vmr_ptr x v) r.rest ∙ same in
                  subst (λ x. Entered x 2 (same_page a) k (set_word e (vmr_ptr k2 v) k2)) same2
                    (store-Entered (vmr_ptr k2 v) a e 2 k k2 c.level c.up r.pool (r.walks a ∙ c.at)
                      (λ b d. r.pages b ∙ rw (one_round a b d) (c.pages b))
                      (let n : k2.next_free_page ≡ k1.next_free_page =
                          ap (λ x. x.next_free_page) r.rest in
                        omega (arith, n, c.taken))
                      (Grown-trans k k1 k2 (Created-Grown k k1 c.rest)
                        (SameBut-Grown k1 k2 r.rest)))))
        ])

  pub map_pages-Entered :
      (rounds a : ℕ) (k : Kernel) (level up : ℕ → ℕ)
      → Pool level up k
      → k.next_free_page + 2 * rounds ≤ k.free_pages
      → Unshared (2 * rounds) k
      → Returns
          (λ _ k'. Entered (vmr_ptr k v) (2 * rounds) (covers rounds a) k k')
          (map_pages host v rounds a k)
  unfolding map_pages
  map_pages-Entered zero a k level up pool room unshared = returns (record {
    level = level;
    up = up;
    pool = pool;
    pages = λ b. refl;
    taken = omega arith;
    rest = refl;
  })
  map_pages-Entered (suc rounds) a k level up pool room unshared =
      Returns-and_then
        (map_page-Entered a k level up pool (omega arith)
          (fewer-Unshared 2 (2 * suc rounds) k (omega arith) unshared))
        λ _ k1 s.
          let free : k1.free_pages ≡ k.free_pages = ap (λ x. x.free_pages) s.rest in
          let same : vmr_ptr k1 v ≡ vmr_ptr k v = ap (λ x. vmr_ptr x v) s.rest in
          Returns-mono
            (map_pages-Entered rounds (a + pgsize) k1 s.level s.up s.pool
              (omega (arith, s.taken, free))
              (kept-Unshared (2 * rounds) (2 * suc rounds) k k1 (ap (λ x. x.vmrs) s.rest)
                (ap (λ x. x.first_free_page) s.rest) (omega (arith, s.taken)) unshared))
            λ _ k2 t. record {
              level = t.level;
              up = t.up;
              pool = t.pool;
              pages = λ b.
                  both_entries (same_page a b) (covers rounds (a + pgsize) b) (vmr_ptr k v)
                    (pte_at k b) (pte_at k1 b) (pte_at k2 b) (rw same at (t.pages b)) (s.pages b);
              taken = omega (arith, s.taken, t.taken);
              rest = Grown-trans k k1 k2 s.rest t.rest;
            }
