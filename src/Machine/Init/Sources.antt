-- ===== src/Machine/Init/Sources.antt =====
-- The sources of interrupts that `hart_plic_init` enables.
use boom_stop.Base.{
  ℕ, zero, suc, ◌+◌, ◌-◌, ◌*◌, ◌/◌, ◌%◌, ◌^◌, ◌≤◌, ◌<◌, ◌≡◌, ◌≢◌, refl, ◌∙◌, ap, true, false, ◌&&◌,
  ◌==◌, if◌then◌else◌, arith, update, leb, ltb, inl, inr, Bool-cases,
}
use boom_stop.Machine.Init.{Start, enable_from, set_device, hart_plic_init, ie_words, clear_pending}

-- The word of the enable bits of supervisor mode that has a source, 64 to a word.
abbrev pub enable_word : Start → (source : ℕ) → ℕ
enable_word s source = s.plic_s_ie s.hartid + 8 * (source / 64)

one_word :
    (left i w ie v : ℕ) (device : ℕ → ℕ)
    → (if leb (i + 1) w && ltb w (i + 1 + left)
        then v
        else update device (ie + 8 * i) v (ie + 8 * w))
      ≡ (if leb i w && ltb w (i + suc left) then v else device (ie + 8 * w))
one_word left i w ie v device = elim (Bool-cases (i == w)) [
  | inl e ↦ ground arith
  | inr n ↦ ground arith
]

enable_from_word :
    (left i w : ℕ) (s : Start)
    → (s.plic_s_ie s.hartid == 0) ≡ false
    → (enable_from left i s).device (s.plic_s_ie s.hartid + 8 * w) ≡ (
        if leb i w && ltb w (i + left) then 2 ^ 64 - 1 else s.device (s.plic_s_ie s.hartid + 8 * w))
unfolding enable_from
enable_from_word zero i w s there =
    let out : (leb i w && ltb w (i + 0)) ≡ false = ground arith in rw out refl
enable_from_word (suc left) i w s there =
    let ie = s.plic_s_ie s.hartid in
    let next = set_device (ie + 8 * i) (2 ^ 64 - 1) s in
    rw (there, enable_from)
      (enable_from_word left (i + 1) w next there ∙ one_word left i w ie (2 ^ 64 - 1) s.device)

from_first : (w n : ℕ) → (leb 0 w && ltb w (0 + n)) ≡ ltb w n
from_first w n = ground arith

few_words : (n : ℕ) → n < 2 ^ 32 → ie_words n ≡ (n + 63) / 64
few_words n few = omega arith

hart_plic_init_word :
    (source : ℕ) (s : Start)
    → (s.plic_ndevs == 0) ≡ false
    → (s.plic_s_ie s.hartid == 0) ≡ false
    → (s.plic_m_thresh s.hartid == enable_word s source) ≡ false
    → (s.plic_s_thresh s.hartid == enable_word s source) ≡ false
    → (hart_plic_init s).device (enable_word s source) ≡ (
        if ltb (source / 64) (ie_words s.plic_ndevs)
        then 2 ^ 64 - 1
        else s.device (enable_word s source))
unfolding hart_plic_init
hart_plic_init_word source s some_source there m t =
    let word = enable_from_word (ie_words s.plic_ndevs) 0 (source / 64) (clear_pending s) there in
    let chosen =
      ap (λ b. if b then 2 ^ 64 - 1 else s.device (enable_word s source))
        (from_first (source / 64) (ie_words s.plic_ndevs)) in
    elim (Bool-cases (s.plic_s_thresh s.hartid == 0)) [
      | inl e ↦ rw (some_source, hart_plic_init, e, m) (word ∙ chosen)
      | inr n ↦ rw (some_source, hart_plic_init, n, t, m) (word ∙ chosen)
    ]

-- Where a hart has enable bits for supervisor mode and no threshold register is at the word of a source
-- from 1 to plic_ndevs, below 2^32, hart_plic_init sets the whole word when the source is not the last
-- one or plic_ndevs is not a multiple of 64, and leaves the word of the last source as it was otherwise.
pub hart_plic_init-misses_last :
    (source : ℕ) (s : Start)
    → 1 ≤ source
    → source ≤ s.plic_ndevs
    → s.plic_ndevs < 2 ^ 32
    → s.plic_s_ie s.hartid ≢ 0
    → s.plic_m_thresh s.hartid ≢ enable_word s source
    → s.plic_s_thresh s.hartid ≢ enable_word s source
    → ((source ≢ s.plic_ndevs → (hart_plic_init s).device (enable_word s source) ≡ 2 ^ 64 - 1)
        × (s.plic_ndevs % 64 ≢ 0 → (hart_plic_init s).device (enable_word s source) ≡ 2 ^ 64 - 1))
      × (source ≡ s.plic_ndevs
          → s.plic_ndevs % 64 ≡ 0
          → (hart_plic_init s).device (enable_word s source) ≡ s.device (enable_word s source))
hart_plic_init-misses_last source s one most few there m t =
    let word =
      hart_plic_init_word source s (ground arith) (ground arith) (ground arith) (ground arith) in
    let words = few_words s.plic_ndevs few in
    let has : source / 64 < (s.plic_ndevs + 63) / 64
        → ltb (source / 64) (ie_words s.plic_ndevs) ≡ true =
      λ below. rw words (ground (arith, below)) in
    let lacks : (s.plic_ndevs + 63) / 64 ≤ source / 64
        → ltb (source / 64) (ie_words s.plic_ndevs) ≡ false =
      λ above. rw words (ground (arith, above)) in
    (
      (λ other. word ∙ rw (has (omega arith)) refl, λ part. word ∙ rw (has (omega arith)) refl),
      λ last whole. word ∙ rw (lacks (omega arith)) refl,
    )
