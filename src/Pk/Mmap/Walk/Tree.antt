-- ===== src/Pk/Mmap/Walk/Tree.antt =====
-- The page tables as a tree: `level` gives each page of the kernel its height as a table, 0 for the
-- tables that hold the entries of pages, and `up` the entry that points to it.
use boom_stop.Base.{
  ℕ, zero, suc, ◌+◌, ◌*◌, ◌/◌, ◌%◌, ◌≤◌, ◌<◌, ◌≡◌, ◌∙◌, ap, true, false, inl, inr, Bool-cases,
  arith,
}
use boom_stop.Pk.Mmap.Walk.{Walked, missing, leaf, walk_from, entry, pt_idx, is_valid, table_of}

-- A page between `lo` and `hi`.
pub record Page (lo hi t : ℕ) : Type 0 where
  pub above : lo ≤ t
  pub below : t + 4096 ≤ hi
  pub aligned : t % 4096 ≡ 0

-- The table behind entry `e` of a table of height `n`.
pub record Child (level up mem : ℕ → ℕ) (lo hi e n : ℕ) : Type 0 where
  pub page : Page lo hi (table_of (mem e))
  pub height : level (table_of (mem e)) + 1 ≡ n
  pub parent : up (table_of (mem e)) ≡ e

-- The pages from `lo` to `hi` are those handed out; each valid entry of a table that is not a lowest
-- one points to a table of the next height, and no other entry points there.
pub record Tree (level up mem : ℕ → ℕ) (lo hi root : ℕ) : Type 0 where
  pub lo_aligned : lo % 4096 ≡ 0
  pub hi_aligned : hi % 4096 ≡ 0
  pub root_page : Page lo hi root
  pub root_height : level root ≡ 2
  pub closed :
      (t j : ℕ)
      → Page lo hi t
      → j < 512
      → 0 < level t
      → is_valid (mem (t + 8 * j)) ≡ true
      → Child level up mem lo hi (t + 8 * j) (level t)

-- Where a walk for `a` ends, from a table of height `top` at most.
pub data Ends (level mem : ℕ → ℕ) (lo hi a top : ℕ) : Walked → Type 0 where
  ends_missing :
      (t n : ℕ)
      → Page lo hi t
      → level t ≡ suc n
      → suc n ≤ top
      → is_valid (mem (entry t a (suc n))) ≡ false
      → Ends level mem lo hi a top (missing (entry t a (suc n)))
  ends_leaf : (t : ℕ) → Page lo hi t → level t ≡ 0 → Ends level mem lo hi a top (leaf (entry t a 0))

pub pt_idx_lt : (a i : ℕ) → pt_idx a i < 512
pt_idx_lt a i = omega arith

-- The entry at height `n` of the walk that ends at entry `x` of a lowest table.
abbrev pub climb : (ℕ → ℕ) → ℕ → ℕ → ℕ
climb up zero x = x
climb up (suc n) x = up (climb up n x / 4096 * 4096)

-- The lowest table that a walk ends in.
pub record Leaf (level : ℕ → ℕ) (lo hi a x : ℕ) : Type 0 where
  pub table : ℕ
  pub page : Page lo hi table
  pub lowest : level table ≡ 0
  pub at : x ≡ entry table a 0

pub Ends-Leaf :
    {level mem : ℕ → ℕ} {lo hi a top : ℕ} {w : Walked} (x : ℕ)
    → Ends level mem lo hi a top w
    → w ≡ leaf x
    → Leaf level lo hi a x
Ends-Leaf x (ends_missing t n p e le v) q = cc
Ends-Leaf x (ends_leaf t p e) q = record { table = t; page = p; lowest = e; at = cc }

module _ (level up mem : ℕ → ℕ) (lo hi root : ℕ) (tree : Tree level up mem lo hi root) where
  pub child :
      (t a i : ℕ)
      → Page lo hi t
      → level t ≡ suc i
      → is_valid (mem (entry t a (suc i))) ≡ true
      → Child level up mem lo hi (entry t a (suc i)) (suc i)
  child t a i p e v =
      let c = tree.closed t (pt_idx a (suc i)) p (pt_idx_lt a (suc i)) (omega (arith, e)) v in
      record { page = c.page; height = c.height ∙ e; parent = c.parent }

  pub walk_from-Ends :
      (a top i t : ℕ)
      → Page lo hi t
      → level t ≡ i
      → i ≤ top
      → Ends level mem lo hi a top (walk_from mem t a i)
  unfolding walk_from
  walk_from-Ends a top zero t p e le = ends_leaf t p e
  walk_from-Ends a top (suc i) t p e le = elim (Bool-cases (is_valid (mem (entry t a (suc i))))) [
    | inl v ↦
        let c = child t a i p e v in
        rw v (
          walk_from-Ends a top i (table_of (mem (entry t a (suc i)))) c.page
            (omega (arith, c.height)) (omega arith))
    | inr v ↦ rw v (ends_missing t i p e le v)
  ]

  -- The entries of a walk are determined by the last, since each table has one entry above it.
  pub climb_lem :
      (a i t x : ℕ)
      → Page lo hi t
      → level t ≡ i
      → walk_from mem t a i ≡ leaf x
      → climb up i x ≡ entry t a i
  unfolding walk_from
  climb_lem a zero t x p e w = cc
  climb_lem a (suc i) t x p e w = elim (Bool-cases (is_valid (mem (entry t a (suc i))))) [
    | inl v ↦
        let c = child t a i p e v in
        let below : climb up i x ≡ entry (table_of (mem (entry t a (suc i)))) a i =
          climb_lem a i (table_of (mem (entry t a (suc i)))) x c.page (omega (arith, c.height))
            (rw v at w) in
        let here : climb up i x / 4096 * 4096 ≡ table_of (mem (entry t a (suc i))) =
          omega (arith, below, c.page.aligned, pt_idx_lt a i) in
        ap up here ∙ c.parent
    | inr v ↦ cc
  ]
