-- ===== src/Pk/Mmap/Walk/Grow.antt =====
-- A new table in the place of a missing one leaves the map of pages as it is.
use boom_stop.Base.{
  ℕ, zero, suc, ◌+◌, ◌*◌, ◌/◌, ◌%◌, ◌^◌, ◌<◌, ◌≡◌, ◌≢◌, refl, sym, ◌∙◌, ap, true, false, ◌==◌, inl,
  inr, ◌⊎◌, ltb, Bool-cases, ==_self, update, fill, u64, arith, bit_or-one,
}
use boom_stop.Pk.Mmap.Walk.{
  missing, leaf, walk_from, entry, pt_idx, is_valid, table_of, ptd_create, pte_create, ppn,
}
use boom_stop.Pk.Mmap.Walk.Tree.{Page, Child, Tree, child, pt_idx_lt}
use boom_stop.Pk.Mmap.Walk.Store.{value_of, pte_of, other_table}

-- The entry that `ptd_create` makes is valid and points to the page.
pub ptd_create_lem :
    (page : ℕ)
    → page % 4096 ≡ 0
    → page < 2 ^ 64
    → (is_valid (ptd_create (ppn page)) ≡ true) × (table_of (ptd_create (ppn page)) ≡ page)
unfolding ptd_create pte_create
ptd_create_lem page aligned small =
    let a = bit_or-one (u64 (ppn page * 2 ^ 10)) in
    let b = bit_or-one (u64 (ppn page * 2 ^ 10) / 2 * 2 + 1) in
    rw (a, b) (ground arith, omega (arith, aligned, small))

missing_injective : {a b : ℕ} → missing a ≡ missing b → a ≡ b
missing_injective {a} e = ap (λ w. elim w [ missing x ↦ x | leaf x ↦ a ]) e

-- The memory after a page of zeros at `hi` and the entry `e` for it.
abbrev pub grown : (mem : ℕ → ℕ) (hi e : ℕ) → ℕ → ℕ
grown mem hi e = update (fill mem hi 4096 (λ _. 0)) e (ptd_create (ppn hi))

module _ (level up mem : ℕ → ℕ) (lo hi root : ℕ) (tree : Tree level up mem lo hi root) (s j n : ℕ)
    (page : Page lo hi s) (height : level s ≡ suc n) (small : j < 512)
    (unused : is_valid (mem (s + 8 * j)) ≡ false) (fits : hi + 4096 < 2 ^ 64) where
  abbrev pub e : ℕ
  e = s + 8 * j

  abbrev pub mem1 : ℕ → ℕ
  mem1 = grown mem hi e

  at_new : mem1 e ≡ ptd_create (ppn hi)
  at_new = ground arith

  pub in_new : (i : ℕ) → i < 512 → mem1 (hi + 8 * i) ≡ 0
  in_new i le = let b = page.below in ground arith

  -- An old word is as it was, but for the entry.
  old_word : (t i : ℕ) → Page lo hi t → i < 512 → e ≢ t + 8 * i → mem1 (t + 8 * i) ≡ mem (t + 8 * i)
  old_word t i p le d = let b = p.below in ground arith

  abbrev level1 : ℕ → ℕ
  level1 = update level hi n

  abbrev up1 : ℕ → ℕ
  up1 = update up hi e

  old_level : (t : ℕ) → Page lo hi t → (level1 t ≡ level t) × (up1 t ≡ up t)
  old_level t p =
      let f : (hi == t) ≡ false = (let b = p.below in ground arith) in (rw f refl, rw f refl)

  here : is_valid (mem1 e) ≡ true
  here = rw at_new (ptd_create_lem hi tree.hi_aligned (omega arith)).0

  there : table_of (mem1 e) ≡ hi
  there = rw at_new (ptd_create_lem hi tree.hi_aligned (omega arith)).1

  pub new-Page : Page lo (hi + 4096) hi
  new-Page = record {
    above = omega (arith, page.above, page.below);
    below = omega arith;
    aligned = tree.hi_aligned;
  }

  wider : (t : ℕ) → Page lo hi t → Page lo (hi + 4096) t
  wider t p = record { above = p.above; below = omega (arith, p.below); aligned = p.aligned }

  new_child :
      (t i : ℕ)
      → Page lo hi t
      → i < 512
      → e ≡ t + 8 * i
      → Child level1 up1 mem1 lo (hi + 4096) (t + 8 * i) (level t)
  new_child t i p le q =
      let same : t ≡ s = omega (arith, p.aligned, page.aligned, q) in
      let tab : table_of (mem1 (t + 8 * i)) ≡ hi = ap (λ x. table_of (mem1 x)) (sym q) ∙ there in
      record {
        page = rw tab new-Page;
        height = rw (tab, same, height) (ground arith);
        parent = rw tab (rw (==_self hi) q);
      }

  old_child :
      (t i : ℕ)
      → Page lo hi t
      → i < 512
      → mem1 (t + 8 * i) ≡ mem (t + 8 * i)
      → Child level up mem lo hi (t + 8 * i) (level t)
      → Child level1 up1 mem1 lo (hi + 4096) (t + 8 * i) (level t)
  old_child t i p le k c =
      let (l, u) = old_level (table_of (mem (t + 8 * i))) c.page in
      record {
        page = rw k (wider (table_of (mem (t + 8 * i))) c.page);
        height = rw (k, l) c.height;
        parent = rw (k, u) c.parent;
      }

  -- A page that has been handed out, or the new one.
  old_or_new : (t : ℕ) → Page lo (hi + 4096) t → Page lo hi t ⊎ (t ≡ hi)
  old_or_new t p = elim (Bool-cases (ltb t hi)) [
    | inl b ↦ inl (record {
      above = p.above;
      below = ground (arith, p.aligned, tree.hi_aligned);
      aligned = p.aligned;
    })
    | inr b ↦ inr (let below = p.below in ground arith)
  ]

  closed_old :
      (t i : ℕ)
      → Page lo hi t
      → i < 512
      → 0 < level1 t
      → is_valid (mem1 (t + 8 * i)) ≡ true
      → Child level1 up1 mem1 lo (hi + 4096) (t + 8 * i) (level1 t)
  closed_old t i p le pos valid =
      let (l, u) = old_level t p in
      rw l (elim (Bool-cases (e == t + 8 * i)) [
        | inl q ↦ new_child t i p le (ground arith)
        | inr d ↦
            let k = old_word t i p le (ground arith) in
            old_child t i p le k (tree.closed t i p le (rw l at pos) (rw k at valid))
      ])

  pub grow-Tree :
      Tree
        (update level hi n)
        (update up hi (s + 8 * j))
        (grown mem hi (s + 8 * j))
        lo
        (hi + 4096)
        root
  grow-Tree = record {
    lo_aligned = tree.lo_aligned;
    hi_aligned = omega (arith, tree.hi_aligned);
    root_page = wider root tree.root_page;
    root_height = (old_level root tree.root_page).0 ∙ tree.root_height;
    closed = λ t i p le pos valid. elim (old_or_new t p) [
      | inl old ↦ closed_old t i old le pos valid
      | inr q ↦ (let z = in_new i le in let w = rw q at valid in absurd (ground (arith, z)))
    ];
  }

  zero_value : (a i : ℕ) → value_of mem1 (walk_from mem1 hi a i) ≡ 0
  unfolding walk_from
  zero_value a zero = in_new (pt_idx a 0) (pt_idx_lt a 0)
  zero_value a (suc i) =
      let z = in_new (pt_idx a (suc i)) (pt_idx_lt a (suc i)) in
      let f : is_valid (mem1 (entry hi a (suc i))) ≡ false = rw z refl in rw f refl

  grow_value :
      (a i t : ℕ)
      → Page lo hi t
      → level t ≡ i
      → value_of mem1 (walk_from mem1 t a i) ≡ value_of mem (walk_from mem t a i)
  unfolding walk_from
  grow_value a zero t p q = old_word t (pt_idx a 0) p (pt_idx_lt a 0) (
      other_table level lo hi s t j (pt_idx a 0) page p (λ x. omega (arith, q, height, x)) small
        (pt_idx_lt a 0))
  grow_value a (suc i) t p q = elim (Bool-cases (e == entry t a (suc i))) [
    | inl same ↦
        let w : e ≡ entry t a (suc i) = ground arith in
        let valid : is_valid (mem1 (entry t a (suc i))) ≡ true =
          ap (λ x. is_valid (mem1 x)) (sym w) ∙ here in
        let target : table_of (mem1 (entry t a (suc i))) ≡ hi =
          ap (λ x. table_of (mem1 x)) (sym w) ∙ there in
        let f : is_valid (mem (entry t a (suc i))) ≡ false =
          ap (λ x. is_valid (mem x)) (sym w) ∙ unused in
        rw (valid, f, target) (zero_value a i)
    | inr d ↦
        let k = old_word t (pt_idx a (suc i)) p (pt_idx_lt a (suc i)) (ground arith) in
        elim (Bool-cases (is_valid (mem (entry t a (suc i))))) [
          | inl v ↦
              let c = child level up mem lo hi root tree t a i p q v in
              rw (k, v)
                (grow_value a i (table_of (mem (entry t a (suc i)))) c.page
                  (omega (arith, c.height)))
          | inr v ↦ rw (k, v) refl
        ]
  ]

  -- No page changes its entry.
  pub grow_pte : (a : ℕ) → pte_of (grown mem hi (s + 8 * j)) root a ≡ pte_of mem root a
  grow_pte a = grow_value a 2 root tree.root_page tree.root_height

  -- A walk that ended at the missing table goes on in the new one.
  pub grow_walk :
      (a i t : ℕ)
      → Page lo hi t
      → level t ≡ i
      → walk_from mem t a i ≡ missing (s + 8 * j)
      → walk_from (grown mem hi (s + 8 * j)) t a i ≡ walk_from (grown mem hi (s + 8 * j)) hi a n
  unfolding walk_from
  grow_walk a zero t p q w = cc
  grow_walk a (suc i) t p q w = elim (Bool-cases (is_valid (mem (entry t a (suc i))))) [
    | inl v ↦
        let c = child level up mem lo hi root tree t a i p q v in
        let d : e ≢ entry t a (suc i) = λ x. (let y = rw x at unused in cc) in
        let k = old_word t (pt_idx a (suc i)) p (pt_idx_lt a (suc i)) d in
        rw (k, v)
          (grow_walk a i (table_of (mem (entry t a (suc i)))) c.page (omega (arith, c.height))
            (rw v at w))
    | inr v ↦
        let x : e ≡ entry t a (suc i) = missing_injective (sym (rw v at w)) in
        let same : t ≡ s = omega (arith, p.aligned, page.aligned, x, small, pt_idx_lt a (suc i)) in
        let level_same : i ≡ n = omega (arith, q, height, ap level same) in
        let valid : is_valid (mem1 (entry t a (suc i))) ≡ true =
          ap (λ x. is_valid (mem1 x)) (sym x) ∙ here in
        let target : table_of (mem1 (entry t a (suc i))) ≡ hi =
          ap (λ x. table_of (mem1 x)) (sym x) ∙ there in
        rw (valid, target, level_same) refl
  ]
