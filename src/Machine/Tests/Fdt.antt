-- ===== src/Machine/Tests/Fdt.antt =====
-- The theorems on the device tree, at a tree of three nodes: a root, whose first child states one
-- address cell, and a second child without properties.
use boom_stop.Base.{
  ℕ, zero, suc, ◌+◌, ◌-◌, ◌*◌, ◌^◌, ◌<◌, ◌≡◌, refl, false, List, [], ◌∷◌, ◌==◌, if◌then◌else◌,
  arith, length,
}
use boom_stop.Base.Cmd.{pure, modify, and_then}
use boom_stop.Util.{Mem}
use boom_stop.Machine.Fdt.{Scan, Callbacks, bswap, token, is_text, scan_helper, fdt_scan, new_child}
use boom_stop.Machine.Fdt.Layout.{Body, finish, child, Laid, events, play, size}
use boom_stop.Machine.Fdt.Order.{fdt_scan-play}
use boom_stop.Machine.Fdt.Plays.{Reads}
use boom_stop.Machine.Fdt.Siblings.{two_children, inherited_events, second_child_inherits}
use boom_stop.Machine.Fdt.Interrupts.{redact_loop, irq_m_ext}
use boom_stop.Machine.Fdt.Redact.{in_second, redact_loop-masks}
use boom_stop.Base.{Option, none, some, Bool-cases, inl, inr}
use boom_stop.Base.Cmd.{Cmd, Ensures, halt}
use boom_stop.Machine.Fdt.{Prop, Node}
use boom_stop.Machine.Fdt.Fields.{fdt_get_address}
use boom_stop.Machine.Fdt.Memory.{parent_of, on_extra}
use boom_stop.Machine.Fdt.Harts.{with_address}
use boom_stop.Machine.Fdt.Texts.{kernel_start_text, kernel_end_text}
use boom_stop.Machine.Fdt.Filters.{
  ChosenScan, chosen_open, chosen_prop, chosen_close, chosen_callbacks,
}

abbrev byte_at : List ℕ → ℕ → ℕ
byte_at [] i = 0
byte_at (x ∷ xs) zero = x
byte_at (x ∷ xs) (suc i) = byte_at xs i

-- The header, the nodes from byte 40 on, and the names from byte 96 on.
abbrev tree_bytes : List ℕ
tree_bytes =
    208 ∷ 13 ∷ 254 ∷ 237 ∷ 0 ∷ 0 ∷ 0 ∷ 111 ∷ 0 ∷ 0 ∷ 0 ∷ 40 ∷ 0 ∷ 0 ∷ 0 ∷ 96 ∷ 0 ∷ 0 ∷ 0 ∷ 111 ∷ 0
    ∷ 0 ∷ 0 ∷ 17 ∷ 0 ∷ 0 ∷ 0 ∷ 16 ∷ 0 ∷ 0 ∷ 0 ∷ 0 ∷ 0 ∷ 0 ∷ 0 ∷ 15 ∷ 0 ∷ 0 ∷ 0 ∷ 56 ∷ 0 ∷ 0 ∷ 0 ∷ 1
    ∷ 0 ∷ 0 ∷ 0 ∷ 0 ∷ 0 ∷ 0 ∷ 0 ∷ 1 ∷ 97 ∷ 0 ∷ 0 ∷ 0 ∷ 0 ∷ 0 ∷ 0 ∷ 3 ∷ 0 ∷ 0 ∷ 0 ∷ 4 ∷ 0 ∷ 0 ∷ 0 ∷ 0
    ∷ 0 ∷ 0 ∷ 0 ∷ 1 ∷ 0 ∷ 0 ∷ 0 ∷ 2 ∷ 0 ∷ 0 ∷ 0 ∷ 1 ∷ 98 ∷ 0 ∷ 0 ∷ 0 ∷ 0 ∷ 0 ∷ 0 ∷ 2 ∷ 0 ∷ 0 ∷ 0 ∷ 2
    ∷ 0 ∷ 0 ∷ 0 ∷ 9 ∷ 35 ∷ 97 ∷ 100 ∷ 100 ∷ 114 ∷ 101 ∷ 115 ∷ 115 ∷ 45 ∷ 99 ∷ 101 ∷ 108 ∷ 108 ∷ 115
    ∷ 0 ∷ []

abbrev tree : Mem
tree = byte_at tree_bytes

abbrev children : Body
children = two_children (97 ∷ []) (98 ∷ []) 0 4 1

abbrev chosen_start : Scan ChosenScan
chosen_start = record {
  mem = tree;
  extra = record { chosen = 0; kernel_start = 0; kernel_end = 0 };
}

with_address-Ensures :
    (p : Prop) (k : ℕ → Cmd (Scan ChosenScan) (Unit {0})) (s : Scan ChosenScan)
    → ((val : ℕ) → Ensures (λ _ s'. s'.mem ≡ tree) (k val s))
    → Ensures (λ _ s'. s'.mem ≡ tree) (with_address p k s)
with_address-Ensures p k s keeps = by_parent (parent_of p.node)
  where
    by_parent :
        (o : Option Node)
        → Ensures
            (λ _ s'. s'.mem ≡ tree)
            (elim o as (λ _. Cmd (Scan ChosenScan) (Unit {0})) [
              | none ↦ halt
              | some parent ↦ k (fdt_get_address s.mem parent p.value)
            ]
              s)
    by_parent none = tt
    by_parent (some parent) = keeps (fdt_get_address s.mem parent p.value)

chosen_prop-Ensures :
    (p : Prop) (s : Scan ChosenScan)
    → s.mem ≡ tree
    → Ensures (λ _ s'. s'.mem ≡ tree) (chosen_prop p s)
unfolding chosen_prop
chosen_prop-Ensures p s e = elim (Bool-cases (s.extra.chosen == 0)) [
  | inl t ↦ rw t e
  | inr t ↦ elim (Bool-cases (is_text s.mem p.name kernel_start_text)) [
    | inl a ↦
        rw (t, a)
          (with_address-Ensures p (λ val. on_extra (λ x. record x { kernel_start = val })) s
            (λ val. e))
    | inr a ↦ elim (Bool-cases (is_text s.mem p.name kernel_end_text)) [
      | inl b ↦
          rw (t, a, b)
            (with_address-Ensures p (λ val. on_extra (λ x. record x { kernel_end = val })) s
              (λ val. e))
      | inr b ↦ rw (t, a, b) e
    ]
  ]
]

chosen_callbacks-Reads : Reads chosen_callbacks tree
unfolding chosen_open chosen_close
chosen_callbacks-Reads = record {
  opens = λ node s e. e;
  props = chosen_prop-Ensures;
  dones = λ node s e. e;
  closes = λ node s e. (refl, e);
}

-- Callbacks that keep the depths of the nodes that are opened.
abbrev name_log : Callbacks (List ℕ)
name_log = record {
  on_open = λ node. modify λ s. record s { extra = length node ∷ s.extra };
  on_prop = λ p. pure tt;
  on_done = λ node. pure tt;
  on_close = λ node. pure false;
}

abbrev start : Scan (List ℕ)
start = record { mem = tree; extra = [] }

name_log-Reads : Reads name_log tree
name_log-Reads = record {
  opens = λ node s e. e;
  props = λ p s e. e;
  dones = λ node s e. e;
  closes = λ node s e. (refl, e);
}

children-Laid : Laid tree false false children 48
unfolding bswap
children-Laid = (
  refl,
  (refl, omega arith, omega arith, refl),
  omega arith,
  (refl, refl, refl, omega arith, refl, refl, refl),
  (refl, (refl, omega arith, omega arith, refl), omega arith, refl, refl),
)

fdt_scan-play_example :
    fdt_scan 0 chosen_callbacks chosen_start
    ≡ play chosen_callbacks
        (events tree 96 (child [] children finish) 40 [] new_child false)
        chosen_start
unfolding bswap
fdt_scan-play_example =
    fdt_scan-play chosen_callbacks 0 (child [] children finish) chosen_start chosen_callbacks-Reads
      refl (refl, refl, omega arith, children-Laid, omega arith) (omega arith)

second_child_inherits_example :
    scan_helper name_log 96 10 48 (new_child ∷ []) new_child false start
    ≡ and_then
        (play name_log (inherited_events 96 48 0 4 1 (97 ∷ []) (98 ∷ []) (new_child ∷ [])) start)
        (λ _. pure (record { lex = 48 + size children + 4; node = new_child ∷ [] }))
second_child_inherits_example =
    second_child_inherits name_log 96 10 48 0 4 1 (97 ∷ []) (98 ∷ []) new_child [] start
      name_log-Reads children-Laid refl refl (omega arith)

-- The second and fourth of four entries are of machine mode.
abbrev entries : Mem
entries i = if i == 15 then 11 else if i == 31 then 11 else if i == 7 then 9 else 0

redact_loop-masks_example :
    ((i : ℕ)
      → i < 4
      → token (redact_loop 4 0 entries) (0 + 8 * i + 4) ≡ (
          if token entries (0 + 8 * i + 4) == irq_m_ext
          then 2 ^ 32 - 1
          else token entries (0 + 8 * i + 4)))
    × ((b : ℕ) → in_second 4 0 b ≡ false → redact_loop 4 0 entries b ≡ entries b)
redact_loop-masks_example = redact_loop-masks 4 0 entries
