-- ===== src/Pk/Mmap/Walk/Store.antt =====
-- A write to the entry of a page leaves the tables alone and changes one page of the map.
use boom_stop.Base.{
  ℕ, zero, suc, ◌+◌, ◌*◌, ◌/◌, ◌%◌, ◌^◌, ◌≤◌, ◌<◌, ◌≡◌, ◌≢◌, refl, sym, ◌∙◌, ap, Bool, true, false,
  ◌==◌, inl, inr, Bool-cases, update, arith, if◌then◌else◌,
}
use boom_stop.Pk.Mmap.Walk.{Walked, missing, leaf, walk_from, entry, pt_idx, is_valid, table_of}
use boom_stop.Pk.Mmap.Walk.Tree.{
  Page, Tree, child, climb, climb_lem, Ends-Leaf, walk_from-Ends, pt_idx_lt,
}

-- The entry of the page at `a`, 0 where the walk ends above.
abbrev pub value_of : (ℕ → ℕ) → Walked → ℕ
value_of mem (missing e) = 0
value_of mem (leaf e) = mem e

abbrev pub pte_of : (mem : ℕ → ℕ) (root a : ℕ) → ℕ
pte_of mem root a = value_of mem (walk_from mem root a 2)

-- The same page, of those that the three levels can name.
abbrev pub same_page : ℕ → ℕ → Bool
same_page a b = a / 4096 % 2 ^ 27 == b / 4096 % 2 ^ 27

-- Entries of tables of two heights are two entries.
pub other_table :
    (level : ℕ → ℕ) (lo hi t s i j : ℕ)
    → Page lo hi t
    → Page lo hi s
    → level t ≢ level s
    → i < 512
    → j < 512
    → t + 8 * i ≢ s + 8 * j
other_table level lo hi t s i j p q n i_lt j_lt e =
    let same : t ≡ s = omega (arith, p.aligned, q.aligned) in n (ap level same)

module _ (level up mem : ℕ → ℕ) (lo hi root : ℕ) (tree : Tree level up mem lo hi root) (s j v : ℕ)
    (page : Page lo hi s) (lowest : level s ≡ 0) (small : j < 512) where
  abbrev stored : ℕ → ℕ
  stored = update mem (s + 8 * j) v

  kept : (t i : ℕ) → Page lo hi t → 0 < level t → i < 512 → stored (t + 8 * i) ≡ mem (t + 8 * i)
  kept t i p pos le =
      let n = other_table level lo hi s t j i page p (λ e. omega (arith, e)) small le in
      let f : (s + 8 * j == t + 8 * i) ≡ false = ground arith in rw f refl

  pub store-Tree : Tree level up (update mem (s + 8 * j) v) lo hi root
  store-Tree = record {
    lo_aligned = tree.lo_aligned;
    hi_aligned = tree.hi_aligned;
    root_page = tree.root_page;
    root_height = tree.root_height;
    closed = λ t i p le pos valid.
        let k = kept t i p pos le in
        let c = tree.closed t i p le pos (rw k at valid) in
        record { page = rw k c.page; height = rw k c.height; parent = rw k c.parent };
  }

  pub store_walk :
      (a i t : ℕ)
      → Page lo hi t
      → level t ≡ i
      → walk_from (update mem (s + 8 * j) v) t a i ≡ walk_from mem t a i
  unfolding walk_from
  store_walk a zero t p e = refl
  store_walk a (suc i) t p e =
      let k = kept t (pt_idx a (suc i)) p (omega (arith, e)) (pt_idx_lt a (suc i)) in
      elim (Bool-cases (is_valid (mem (entry t a (suc i))))) [
        | inl valid ↦
            let c = child level up mem lo hi root tree t a i p e valid in
            rw (k, valid)
              (store_walk a i (table_of (mem (entry t a (suc i)))) c.page (omega (arith, c.height)))
        | inr invalid ↦ rw (k, invalid) refl
      ]

-- Two addresses that agree in the indices of a walk have the same walk.
agree_walk :
    (mem : ℕ → ℕ) (a b i t : ℕ)
    → ((n : ℕ) → n ≤ i → pt_idx a n ≡ pt_idx b n)
    → walk_from mem t a i ≡ walk_from mem t b i
unfolding walk_from
agree_walk mem a b zero t same = ap (λ n. leaf (t + 8 * n)) (same 0 (omega arith))
agree_walk mem a b (suc i) t same =
    let top : entry t a (suc i) ≡ entry t b (suc i) =
      ap (λ n. t + 8 * n) (same (suc i) (omega arith)) in
    rw
      (
        top,
        agree_walk mem a b i (table_of (mem (entry t b (suc i)))) (λ n le. same n (omega arith)),
      )
      refl

three : (P : ℕ → Type 0) → P 0 → P 1 → P 2 → (n : ℕ) → n ≤ 2 → P n
three P p q r zero h = p
three P p q r (suc zero) h = q
three P p q r (suc (suc zero)) h = r
three P p q r (suc (suc (suc n))) h = absurd (omega arith)

same_page_agree : (a b : ℕ) → same_page a b ≡ true → (n : ℕ) → n ≤ 2 → pt_idx a n ≡ pt_idx b n
same_page_agree a b e =
    let q : a / 4096 % 2 ^ 27 ≡ b / 4096 % 2 ^ 27 = ground arith in
    three (λ n. pt_idx a n ≡ pt_idx b n) (omega (arith, q)) (omega (arith, q)) (omega (arith, q))

agree_same_page : (a b : ℕ) → ((n : ℕ) → n ≤ 2 → pt_idx a n ≡ pt_idx b n) → same_page a b ≡ true
agree_same_page a b same =
    let q : a / 4096 % 2 ^ 27 ≡ b / 4096 % 2 ^ 27 =
      omega (arith, same 0 (omega arith), same 1 (omega arith), same 2 (omega arith)) in
    ground arith

pub same_page_walk :
    (mem : ℕ → ℕ) (root a b : ℕ)
    → same_page a b ≡ true
    → walk_from mem root a 2 ≡ walk_from mem root b 2
same_page_walk mem root a b e = agree_walk mem a b 2 root (same_page_agree a b e)

module _ (level up mem : ℕ → ℕ) (lo hi root : ℕ) (tree : Tree level up mem lo hi root) where
  -- The index at each height, from the last entry of a walk.
  indices :
      (a x i t : ℕ)
      → Page lo hi t
      → level t ≡ i
      → walk_from mem t a i ≡ leaf x
      → (n : ℕ) → n ≤ i
      → pt_idx a n ≡ climb up n x % 4096 / 8
  unfolding walk_from
  indices a x zero t p e w n le =
      let z : n ≡ 0 = omega arith in
      let c = climb_lem level up mem lo hi root tree a 0 t x p e w in
      rw z (omega (arith, c, p.aligned))
  indices a x (suc i) t p e w n le = elim (Bool-cases (n == suc i)) [
    | inl top ↦
        let z : n ≡ suc i = ground arith in
        let c = climb_lem level up mem lo hi root tree a (suc i) t x p e w in
        rw z (omega (arith, c, p.aligned, pt_idx_lt a (suc i)))
    | inr lower ↦ elim (Bool-cases (is_valid (mem (entry t a (suc i))))) [
      | inl v ↦
          let c = child level up mem lo hi root tree t a i p e v in
          indices a x i (table_of (mem (entry t a (suc i)))) c.page (omega (arith, c.height))
            (rw v at w) n (ground arith)
      | inr v ↦ cc
    ]
  ]

  -- Two pages with one entry are the same page.
  one_entry :
      (a b x : ℕ)
      → walk_from mem root a 2 ≡ leaf x
      → walk_from mem root b 2 ≡ leaf x
      → same_page a b ≡ true
  one_entry a b x wa wb = agree_same_page a b λ n le.
      indices a x 2 root tree.root_page tree.root_height wa n le
      ∙ sym (indices b x 2 root tree.root_page tree.root_height wb n le)

  store_value :
      (a x v b : ℕ)
      → walk_from mem root a 2 ≡ leaf x
      → (w : Walked) → walk_from mem root b 2 ≡ w
      → value_of (update mem x v) w ≡ (if same_page a b then v else value_of mem w)
  store_value a x v b wa (missing e) wb = elim (Bool-cases (same_page a b)) [
    | inl s ↦ let q = same_page_walk mem root a b s in cc
    | inr d ↦ rw d refl
  ]
  store_value a x v b wa (leaf y) wb = elim (Bool-cases (same_page a b)) [
    | inl s ↦
        let q = same_page_walk mem root a b s in
        let r : x ≡ y = cc in let t : (x == y) ≡ true = ground arith in rw (s, t) refl
    | inr d ↦
        let f : (x == y) ≡ false = elim (Bool-cases (x == y)) [
          | inl t ↦
              let r : x ≡ y = ground arith in let o = one_entry a b y (wa ∙ ap leaf r) wb in cc
          | inr n ↦ n
        ] in
        rw (d, f) refl
  ]

  -- The write of an entry, seen from the map of pages: the page of `a` has the new entry, and all
  -- other pages have the ones they had.
  pub store_pte :
      (a x v b : ℕ)
      → walk_from mem root a 2 ≡ leaf x
      → pte_of (update mem x v) root b ≡ (if same_page a b then v else pte_of mem root b)
  store_pte a x v b w =
      let l =
        Ends-Leaf x
          (walk_from-Ends level up mem lo hi root tree a 2 2 root tree.root_page tree.root_height
            (omega arith))
          w in
      let same : walk_from (update mem x v) root b 2 ≡ walk_from mem root b 2 = rw l.at (
        store_walk level up mem lo hi root tree l.table (pt_idx a 0) v l.page l.lowest
          (pt_idx_lt a 0) b 2 root tree.root_page tree.root_height) in
      rw same (store_value a x v b w (walk_from mem root b 2) refl)
