-- ===== src/Pk/Mmap/Walk/Create.antt =====
-- `__walk_create`: three attempts are enough, and the map of pages is as before.
use boom_stop.Base.{
  ℕ, zero, suc, ◌+◌, ◌*◌, ◌^◌, ◌≤◌, ◌<◌, ◌≡◌, refl, sym, ◌∙◌, ap, false, ◌==◌, ==_self, update,
  arith, inl, inr, Option, none, some, subst,
}
use boom_stop.Base.Cmd.{Returns, returns, Returns-mono, ◌>>=◌, ◌>>◌, modify}
use boom_stop.Pk.Mmap.State.{Kernel, set_word, Apart, clear_vmrs-Apart}
use boom_stop.Pk.Mmap.Pages.{page_alloc, page_addr}
use boom_stop.Pk.Mmap.Walk.{
  Walked, missing, leaf, walk_from, walk, entry, pt_idx, is_valid, ptd_create, ppn, walk_create_on,
  walk_create, pte_at,
}
use boom_stop.Pk.Mmap.Walk.Tree.{
  Page, Tree, Ends, ends_missing, ends_leaf, walk_from-Ends, pt_idx_lt,
}
use boom_stop.Pk.Mmap.Walk.Store.{pte_of, value_of}
use boom_stop.Pk.Mmap.Walk.Grow.{grown, grow-Tree, grow_pte, grow_walk, in_new, new-Page}

-- Where the next page will be.
abbrev pub frontier : Kernel → ℕ
frontier k = k.first_free_page + 4096 * k.next_free_page

-- The page tables of a kernel are a tree in the pages that are handed out.
pub record Pool (level up : ℕ → ℕ) (k : Kernel) : Type 0 where
  pub tree : Tree level up k.mem k.first_free_page (frontier k) k.root_page_table
  pub fits : k.first_free_page + 4096 * k.free_pages < 2 ^ 64
  pub positive : 0 < k.first_free_page

-- The kernel after one more page for a table, and the entry for it.
abbrev pub with_table : Kernel → ℕ → Kernel
with_table k e = record k {
  mem = grown k.mem (frontier k) e;
  next_free_page = k.next_free_page + 1;
}

-- The table of regions lies apart from the pages that are handed out and from the next `n`.
abbrev pub Unshared : (n : ℕ) → Kernel → Type 0
Unshared n k = Apart k.first_free_page (4096 * (k.next_free_page + n)) k

pub fewer-Unshared : (m n : ℕ) (k : Kernel) → m ≤ n → Unshared n k → Unshared m k
fewer-Unshared m n k le (inl below) = inl (omega arith)
fewer-Unshared m n k le (inr above) = inr above

pub kept-Unshared :
    (m n : ℕ) (k k1 : Kernel)
    → k1.vmrs ≡ k.vmrs
    → k1.first_free_page ≡ k.first_free_page
    → k1.next_free_page + m ≤ k.next_free_page + n
    → Unshared n k
    → Unshared m k1
kept-Unshared m n k k1 v f le (inl below) = inl (omega (arith, v, f))
kept-Unshared m n k k1 v f le (inr above) = inr (omega (arith, v, f))

next-Apart : (n : ℕ) (k : Kernel) → Unshared (suc n) k → Apart (frontier k) 4096 k
next-Apart n k (inl below) = inl (omega arith)
next-Apart n k (inr above) = inr (omega arith)

later-Unshared : (n e : ℕ) (k : Kernel) → Unshared (suc n) k → Unshared n (with_table k e)
later-Unshared n e k (inl below) = inl (omega arith)
later-Unshared n e k (inr above) = inr above

pub pte_at_lem : (k : Kernel) (a : ℕ) → pte_at k a ≡ pte_of k.mem k.root_page_table a
unfolding walk
pte_at_lem k a = by_walk (walk_from k.mem k.root_page_table a 2)
  where
    by_walk :
        (w : Walked)
        → ◌≡◌ {A = ℕ}
            (elim (elim w as (λ _. Option ℕ) [ missing _ ↦ none | leaf e ↦ some e ]) [
              | none ↦ 0
              | some e ↦ k.mem e
            ])
            (value_of k.mem w)
    by_walk (missing e) = refl
    by_walk (leaf e) = refl

alloc_table :
    (k : Kernel) (e fuel a n : ℕ)
    → k.next_free_page < k.free_pages
    → k.first_free_page + 4096 * k.free_pages < 2 ^ 64
    → Unshared (suc n) k
    → (page_alloc >>= λ page. modify (set_word e (ptd_create (ppn page))) >> walk_create_on fuel a)
        k
      ≡ walk_create_on fuel a (with_table k e)
unfolding page_alloc
alloc_table k e fuel a n room fits unshared =
    let f : (k.next_free_page == k.free_pages) ≡ false = ground arith in
    let h : page_addr k k.next_free_page ≡ frontier k = omega arith in
    let apart =
      clear_vmrs-Apart (frontier k) 4096 (record k { next_free_page = k.next_free_page + 1 })
        (next-Apart n k unshared) in
    rw (f, h) (ap (λ v. walk_create_on fuel a (record (with_table k e) { vmr = v })) apart)

-- The walk ends at an entry of a lowest table, no page has another entry than before, the tables are
-- a tree, and nothing else is changed but that up to `most` pages are taken.
pub record Created (most a : ℕ) (k : Kernel) (e : ℕ) (k' : Kernel) : Type 0 where
  pub level : ℕ → ℕ
  pub up : ℕ → ℕ
  pub pool : Pool level up k'
  pub at : walk_from k'.mem k'.root_page_table a 2 ≡ leaf e
  pub pages : (b : ℕ) → pte_at k' b ≡ pte_at k b
  pub taken : k'.next_free_page ≤ k.next_free_page + most
  pub rest : k' ≡ record k { mem = k'.mem; next_free_page = k'.next_free_page }

module _ (level up : ℕ → ℕ) (k : Kernel) (pool : Pool level up k) (a s n : ℕ)
    (page : Page k.first_free_page (frontier k) s) (height : level s ≡ suc n)
    (unused : is_valid (k.mem (entry s a (suc n))) ≡ false)
    (room : k.next_free_page < k.free_pages) where
  next : frontier k + 4096 ≡ frontier (with_table k (entry s a (suc n)))
  next = omega arith

  below_top : frontier k + 4096 < 2 ^ 64
  below_top = omega (arith, pool.fits, room)

  pub with_table-Pool :
      Pool
        (update level (frontier k) n)
        (update up (frontier k) (entry s a (suc n)))
        (with_table k (entry s a (suc n)))
  with_table-Pool = record {
    tree =
        subst
          (λ h.
            Tree (update level (frontier k) n) (update up (frontier k) (entry s a (suc n)))
              (grown k.mem (frontier k) (entry s a (suc n))) k.first_free_page h k.root_page_table)
          next
          (grow-Tree level up k.mem k.first_free_page (frontier k) k.root_page_table pool.tree s
            (pt_idx a (suc n)) n page height (pt_idx_lt a (suc n)) unused below_top);
    fits = pool.fits;
    positive = pool.positive;
  }

  pub with_table_pages : (b : ℕ) → pte_at (with_table k (entry s a (suc n))) b ≡ pte_at k b
  with_table_pages b =
      pte_at_lem (with_table k (entry s a (suc n))) b
      ∙ grow_pte level up k.mem k.first_free_page (frontier k) k.root_page_table pool.tree s
          (pt_idx a (suc n)) n page height (pt_idx_lt a (suc n)) unused below_top b
      ∙ sym (pte_at_lem k b)

  pub with_table_walk :
      walk_from k.mem k.root_page_table a 2 ≡ missing (entry s a (suc n))
      → walk_from (grown k.mem (frontier k) (entry s a (suc n))) k.root_page_table a 2
        ≡ walk_from (grown k.mem (frontier k) (entry s a (suc n))) (frontier k) a n
  with_table_walk w =
      grow_walk level up k.mem k.first_free_page (frontier k) k.root_page_table pool.tree s
        (pt_idx a (suc n)) n page height (pt_idx_lt a (suc n)) unused below_top a 2
        k.root_page_table pool.tree.root_page pool.tree.root_height w

  pub with_table_zero :
      (i : ℕ) → i < 512 → grown k.mem (frontier k) (entry s a (suc n)) (frontier k + 8 * i) ≡ 0
  with_table_zero i le =
      in_new level up k.mem k.first_free_page (frontier k) k.root_page_table pool.tree s
        (pt_idx a (suc n)) n page height (pt_idx_lt a (suc n)) unused below_top i le

  pub with_table-Page :
      Page k.first_free_page (frontier (with_table k (entry s a (suc n)))) (frontier k)
  with_table-Page =
      subst (λ h. Page k.first_free_page h (frontier k)) next
        (new-Page level up k.mem k.first_free_page (frontier k) k.root_page_table pool.tree s
          (pt_idx a (suc n)) n page height (pt_idx_lt a (suc n)) unused below_top)

later-Created :
    {m a : ℕ} {k : Kernel} (x : ℕ) {e : ℕ} {k' : Kernel}
    → ((b : ℕ) → pte_at (with_table k x) b ≡ pte_at k b)
    → Created m a (with_table k x) e k'
    → Created (suc m) a k e k'
later-Created x pages c = record {
  level = c.level;
  up = c.up;
  pool = c.pool;
  at = c.at;
  pages = λ b. c.pages b ∙ pages b;
  taken = omega (arith, c.taken);
  rest = c.rest;
}

leaf-Created :
    {most a : ℕ} {k : Kernel} {e : ℕ} (level up : ℕ → ℕ)
    → Pool level up k
    → walk_from k.mem k.root_page_table a 2 ≡ leaf e
    → Created most a k e k
leaf-Created level up pool w = record {
  level = level;
  up = up;
  pool = pool;
  at = w;
  pages = λ b. refl;
  taken = omega arith;
  rest = refl;
}

leaf_create :
    (fuel a e : ℕ) (k : Kernel) (level up : ℕ → ℕ) (most : ℕ)
    → Pool level up k
    → walk_from k.mem k.root_page_table a 2 ≡ leaf e
    → Returns (Created most a k) (walk_create_on (suc fuel) a k)
unfolding walk_create_on
leaf_create fuel a e k level up most pool w =
    rw (w, walk_create_on) (returns (leaf-Created level up pool w))

missing_create :
    (n fuel a s : ℕ) (k : Kernel) (level up : ℕ → ℕ)
    → Pool level up k
    → Page k.first_free_page (frontier k) s
    → level s ≡ suc n
    → is_valid (k.mem (entry s a (suc n))) ≡ false
    → walk_from k.mem k.root_page_table a 2 ≡ missing (entry s a (suc n))
    → suc n < fuel
    → k.next_free_page + suc n ≤ k.free_pages
    → Unshared (suc n) k
    → Returns (Created (suc n) a k) (walk_create_on fuel a k)
unfolding walk_create_on walk_from
missing_create n zero a s k level up pool page height unused w enough room unshared =
    absurd (omega arith)
missing_create n (suc zero) a s k level up pool page height unused w enough room unshared =
    absurd (omega arith)
missing_create zero (suc (suc fuel)) a s k level up pool page height unused w enough room unshared =
    let lt : k.next_free_page < k.free_pages = omega arith in
    let on = with_table_walk level up k pool a s zero page height unused lt w in
    rw (w, walk_create_on, alloc_table k (entry s a 1) (suc fuel) a 0 lt pool.fits unshared)
      (Returns-mono
        (leaf_create fuel a (entry (frontier k) a 0) (with_table k (entry s a 1)) _ _ 0
          (with_table-Pool level up k pool a s zero page height unused lt) on)
        λ e k' c.
          later-Created _ (with_table_pages level up k pool a s zero page height unused lt) c)
missing_create (suc n) (suc (suc fuel)) a s k level up pool page height unused w enough room
      unshared =
    let lt : k.next_free_page < k.free_pages = omega arith in
    let k1 : Kernel = with_table k (entry s a (suc (suc n))) in
    let on = with_table_walk level up k pool a s (suc n) page height unused lt w in
    let z =
      with_table_zero level up k pool a s (suc n) page height unused lt (pt_idx a (suc n))
        (pt_idx_lt a (suc n)) in
    let f : is_valid (k1.mem (entry (frontier k) a (suc n))) ≡ false = rw z refl in
    rw
      (
        w,
        walk_create_on,
        alloc_table k (entry s a (suc (suc n))) (suc fuel) a (suc n) lt pool.fits unshared,
      )
      (Returns-mono
        (missing_create n (suc fuel) a (frontier k) k1 _ _
          (with_table-Pool level up k pool a s (suc n) page height unused lt)
          (with_table-Page level up k pool a s (suc n) page height unused lt)
          (rw (==_self (frontier k)) refl) f (on ∙ rw f refl) (omega arith) (omega arith)
          (later-Unshared (suc n) (entry s a (suc (suc n))) k unshared))
        λ e k' c.
          later-Created _ (with_table_pages level up k pool a s (suc n) page height unused lt) c)

create_by :
    (a : ℕ) (k : Kernel) (level up : ℕ → ℕ)
    → Pool level up k
    → k.next_free_page + 2 ≤ k.free_pages
    → Unshared 2 k
    → (w : Walked) → walk_from k.mem k.root_page_table a 2 ≡ w
    → Ends level k.mem k.first_free_page (frontier k) a 2 w
    → Returns (Created 2 a k) (walk_create_on 3 a k)
create_by a k level up pool room unshared w e (ends_leaf t p l) =
    leaf_create 2 a (entry t a 0) k level up 2 pool e
create_by a k level up pool room unshared w e (ends_missing t n p l le v) =
    Returns-mono
      (missing_create n 3 a t k level up pool p l v e (omega arith) (omega arith)
        (fewer-Unshared (suc n) 2 k (omega arith) unshared))
      λ x k' c. record {
        level = c.level;
        up = c.up;
        pool = c.pool;
        at = c.at;
        pages = c.pages;
        taken = omega (arith, c.taken);
        rest = c.rest;
      }

-- With page tables that are a tree, two pages left, and the table of regions apart from the pages that
-- are handed out and from the next two, __walk_create returns within its three attempts the entry that a
-- walk for the address finds; the page tables are a tree still, no page has another entry than before,
-- and nothing else changes, the regions included, but the count of pages, which grows by two at most.
pub walk_create-Created :
    (a : ℕ) (k : Kernel) (level up : ℕ → ℕ)
    → Pool level up k
    → k.next_free_page + 2 ≤ k.free_pages
    → Unshared 2 k
    → Returns (Created 2 a k) (walk_create a k)
unfolding walk_create
walk_create-Created a k level up pool room unshared =
    create_by a k level up pool room unshared (walk_from k.mem k.root_page_table a 2) refl (
      walk_from-Ends level up k.mem k.first_free_page (frontier k) k.root_page_table pool.tree a 2 2
        k.root_page_table pool.tree.root_page pool.tree.root_height (omega arith))
