-- ===== src/Pk/Mmap/Map/Region.antt =====
-- The region that pages are mapped to is not given back by the pages that they take the place of.
use boom_stop.Base.{
  ℕ, zero, suc, ◌+◌, ◌*◌, ◌/◌, ◌-◌, ◌^◌, ◌≤◌, ◌<◌, ◌≡◌, ◌≢◌, refl, ◌∙◌, ap, subst, Bool, true,
  false, not, ◌&&◌, ◌||◌, ◌==◌, ltb, inl, inr, Bool-cases, Option-cases, arith,
}
use boom_stop.Base.Cmd.{Returns, returns, Returns-and_then, Returns-mono, Returns-both}
use boom_stop.Pk.Frontend.{Host}
use boom_stop.Pk.Mmap.State.{Kernel, pgsize, vmr_size, vmr_index}
use boom_stop.Pk.Mmap.Pages.{is_free_vmr}
use boom_stop.Pk.Mmap.Walk.{walk, is_valid, pte_at}
use boom_stop.Pk.Mmap.Walk.Store.{same_page}
use boom_stop.Pk.Mmap.Walk.Create.{
  Pool, Unshared, kept-Unshared, fewer-Unshared, walk_create-Created,
}
use boom_stop.Pk.Mmap.Fault.Demand.{vmr_decref-Released}
use boom_stop.Pk.Mmap.Map.{unmap_page, unmap_pages, munmap_locked, map_page, map_pages}
use boom_stop.Pk.Mmap.Map.Enter.{entry_used, map_page-Entered}

-- An entry of a page that is not filled yet, and whose region is number `v` of the table.
abbrev pub points : (v vmrs pte : ℕ) → Bool
points v vmrs pte = not (pte == 0) && not (is_valid pte) && ((pte - vmrs) / vmr_size == v)

module _ (host : Host) (v : ℕ) where
  abbrev Keeps : Kernel → Kernel → Type 0
  Keeps k k' = k'.vmr v ≡ k.vmr v

  unmap_page-Keeps :
      (a : ℕ) (k : Kernel)
      → points v k.vmrs (pte_at k a) ≡ false
      → Returns (λ _ k'. Keeps k k') (unmap_page host a k)
  unfolding unmap_page
  unmap_page-Keeps a k clear = elim (Option-cases (walk k a)) [
    | inl e ↦ rw (e, unmap_page) (returns refl)
    | inr (pte, e) ↦ elim (Bool-cases (k.mem pte == 0)) [
      | inl t ↦ rw (e, unmap_page, t) (returns refl)
      | inr t ↦ elim (Bool-cases (is_valid (k.mem pte))) [
        | inl u ↦ rw (e, unmap_page, t, u) (returns refl)
        | inr u ↦
            let p : pte_at k a ≡ k.mem pte = rw (e, pte_at) refl in
            let c : points v k.vmrs (k.mem pte) ≡ false =
              subst (λ x. points v k.vmrs x ≡ false) p clear in
            let d : (vmr_index k (k.mem pte) == v) ≡ false = rw (t, u) at c in
            let other : vmr_index k (k.mem pte) ≢ v = ground (arith, d) in
            rw (e, unmap_page, t, u)
              (Returns-and_then (vmr_decref-Released host (vmr_index k (k.mem pte)) k)
                λ _ k1 r. returns (r.others v other))
      ]
    ]
  ]

  munmap_one-Keeps :
      (a : ℕ) (k : Kernel)
      → a + pgsize < 2 ^ 64
      → points v k.vmrs (pte_at k a) ≡ false
      → Returns (λ _ k'. Keeps k k') (munmap_locked host a pgsize k)
  unfolding munmap_locked unmap_pages
  munmap_one-Keeps a k below clear =
      let one : ltb (a + pgsize) (2 ^ 64) ≡ true = ground arith in
      rw one (Returns-and_then (unmap_page-Keeps a k clear) λ _ k1 e. returns e)

  map_page-Keeps :
      (a : ℕ) (k : Kernel) (level up : ℕ → ℕ)
      → Pool level up k
      → k.next_free_page + 2 ≤ k.free_pages
      → Unshared 2 k
      → a + pgsize < 2 ^ 64
      → points v k.vmrs (pte_at k a) ≡ false
      → Returns (λ _ k'. Keeps k k') (map_page host v a k)
  unfolding map_page
  map_page-Keeps a k level up pool room unshared below clear =
      Returns-and_then (walk_create-Created a k level up pool room unshared) λ e k1 c.
        let f : (e == 0) ≡ false =
          (let n = entry_used a e k1 c.level c.up c.pool c.at in ground arith) in
        let same : Keeps k k1 = ap (λ x. x.vmr v) c.rest in
        let clear1 : points v k1.vmrs (pte_at k1 a) ≡ false =
          ap (λ x. points v x.vmrs (pte_at k1 a)) c.rest
          ∙ ap (points v k.vmrs) (c.pages a)
          ∙ clear in
        rw f (elim (Bool-cases (k1.mem e == 0)) [
          | inl z ↦ rw z (returns same)
          | inr z ↦
              rw z
                (Returns-and_then (munmap_one-Keeps a k1 below clear1) λ _ k2 q. returns (q ∙ same))
        ])

  pub map_pages-Keeps :
      (rounds a : ℕ) (k : Kernel) (level up : ℕ → ℕ)
      → Pool level up k
      → k.next_free_page + 2 * rounds ≤ k.free_pages
      → Unshared (2 * rounds) k
      → a + rounds * 4096 ≤ 2 ^ 39
      → ((j : ℕ) → j < rounds → points v k.vmrs (pte_at k (a + j * 4096)) ≡ false)
      → Returns (λ _ k'. Keeps k k') (map_pages host v rounds a k)
  unfolding map_pages
  map_pages-Keeps zero a k level up pool room unshared top clear = returns refl
  map_pages-Keeps (suc rounds) a k level up pool room unshared top clear =
      let two = fewer-Unshared 2 (2 * suc rounds) k (omega arith) unshared in
      let z : a + 0 * 4096 ≡ a = omega arith in
      let here : points v k.vmrs (pte_at k a) ≡ false =
        subst (λ x. points v k.vmrs (pte_at k x) ≡ false) z (clear 0 (omega arith)) in
      Returns-and_then
        (Returns-both (map_page-Entered host v a k level up pool (omega arith) two)
          (map_page-Keeps a k level up pool (omega arith) two (omega arith) here))
        λ _ k1 (s, q).
          let free : k1.free_pages ≡ k.free_pages = ap (λ x. x.free_pages) s.rest in
          let later : (j : ℕ)
              → j < rounds
              → points v k1.vmrs (pte_at k1 (a + 4096 + j * 4096)) ≡ false =
            (λ j l.
              let b : ℕ = a + 4096 + j * 4096 in
              let apart : same_page a b ≡ false = ground arith in
              let place : a + suc j * 4096 ≡ b = omega arith in
              let kept : pte_at k1 b ≡ pte_at k b = s.pages b ∙ rw apart refl in
              ap (λ x. points v x.vmrs (pte_at k1 b)) s.rest
              ∙ ap (points v k.vmrs) kept
              ∙ subst (λ x. points v k.vmrs (pte_at k x) ≡ false) place
                  (clear (suc j) (omega arith))) in
          Returns-mono
            (map_pages-Keeps rounds (a + pgsize) k1 s.level s.up s.pool
              (omega (arith, s.taken, free))
              (kept-Unshared (2 * rounds) (2 * suc rounds) k k1 (ap (λ x. x.vmrs) s.rest)
                (ap (λ x. x.first_free_page) s.rest) (omega (arith, s.taken)) unshared)
              (omega arith) later)
            λ _ k2 t. t ∙ q

-- An entry that is not filled yet names a region in use.
abbrev pub live : Kernel → (pte : ℕ) → Bool
live k pte = pte == 0 || is_valid pte || not ((k.vmr (vmr_index k pte)).refcnt == 0)

pub live-points :
    (k : Kernel) (i pte : ℕ)
    → is_free_vmr k i ≡ true
    → live k pte ≡ true
    → points i k.vmrs pte ≡ false
live-points k i pte free l = elim (Bool-cases ((pte - k.vmrs) / vmr_size == i)) [
  | inl e ↦
      let q : vmr_index k pte ≡ i = ground arith in
      let here : (pte == 0 || is_valid pte || not ((k.vmr i).refcnt == 0)) ≡ true =
        subst (λ x. (pte == 0 || is_valid pte || not ((k.vmr x).refcnt == 0)) ≡ true) q l in
      ground (arith, here)
  | inr n ↦ ground arith
]
