-- ===== src/Pk/Mmap/Walk/Keep.antt =====
-- A write to the entry of a page, seen from the map of pages.
use boom_stop.Base.{ℕ, ◌≡◌, refl, ◌∙◌, update, arith, if◌then◌else◌, Option, none, some}
use boom_stop.Pk.Mmap.State.{Kernel, set_word}
use boom_stop.Pk.Mmap.Walk.{Walked, missing, leaf, walk_from, walk, pt_idx, pte_at}
use boom_stop.Pk.Mmap.Walk.Tree.{Leaf, Ends-Leaf, walk_from-Ends, pt_idx_lt}
use boom_stop.Pk.Mmap.Walk.Store.{same_page, store-Tree, store_walk, store_pte}
use boom_stop.Pk.Mmap.Walk.Create.{Pool, frontier, pte_at_lem}

-- The lowest table that holds the entry of a walk.
pub leaf_of :
    (a e : ℕ) (k : Kernel) (level up : ℕ → ℕ)
    → Pool level up k
    → walk_from k.mem k.root_page_table a 2 ≡ leaf e
    → Leaf level k.first_free_page (frontier k) a e
leaf_of a e k level up pool w =
    let tree = pool.tree in
    Ends-Leaf e
      (walk_from-Ends level up k.mem k.first_free_page (frontier k) k.root_page_table tree a 2 2
        k.root_page_table tree.root_page tree.root_height (omega arith))
      w

-- A write to the entry that a walk for `a` finds.
pub store-Pool :
    (a e v : ℕ) (k : Kernel) (level up : ℕ → ℕ)
    → Pool level up k
    → walk_from k.mem k.root_page_table a 2 ≡ leaf e
    → Pool level up (set_word e v k)
store-Pool a e v k level up pool w =
    let tree = pool.tree in
    let l = leaf_of a e k level up pool w in
    rw l.at (record {
      tree =
          store-Tree level up k.mem k.first_free_page (frontier k) k.root_page_table tree l.table
            (pt_idx a 0) v l.page l.lowest (pt_idx_lt a 0);
      fits = pool.fits;
      positive = pool.positive;
    })

pub set_word_pages :
    (a e v b : ℕ) (k : Kernel) (level up : ℕ → ℕ)
    → Pool level up k
    → walk_from k.mem k.root_page_table a 2 ≡ leaf e
    → pte_at (set_word e v k) b ≡ (if same_page a b then v else pte_at k b)
set_word_pages a e v b k level up pool w =
    let s =
      store_pte level up k.mem k.first_free_page (frontier k) k.root_page_table pool.tree a e v b
        w in
    pte_at_lem (set_word e v k) b ∙ rw (pte_at_lem k b) s

pub set_word_walk :
    (a e v b : ℕ) (k : Kernel) (level up : ℕ → ℕ)
    → Pool level up k
    → walk_from k.mem k.root_page_table a 2 ≡ leaf e
    → walk_from (update k.mem e v) k.root_page_table b 2 ≡ walk_from k.mem k.root_page_table b 2
set_word_walk a e v b k level up pool w =
    let tree = pool.tree in
    let l = leaf_of a e k level up pool w in
    rw l.at (
      store_walk level up k.mem k.first_free_page (frontier k) k.root_page_table tree l.table
        (pt_idx a 0) v l.page l.lowest (pt_idx_lt a 0) b 2 k.root_page_table tree.root_page
        tree.root_height)

-- Where a walk finds an entry, and where it finds none.
pub walk-leaf :
    (k : Kernel) (a e : ℕ) → walk k a ≡ some e → walk_from k.mem k.root_page_table a 2 ≡ leaf e
unfolding walk
walk-leaf k a e w = by_walk (walk_from k.mem k.root_page_table a 2) w
  where
    by_walk :
        (x : Walked)
        → ◌≡◌ {A = Option ℕ} (elim x [ missing _ ↦ none | leaf y ↦ some y ]) (some e)
        → x ≡ leaf e
    by_walk (missing y) q = cc
    by_walk (leaf y) q = cc

pub leaf-walk :
    (k : Kernel) (a e : ℕ) → walk_from k.mem k.root_page_table a 2 ≡ leaf e → walk k a ≡ some e
unfolding walk
leaf-walk k a e w = rw (w, walk) refl
