-- ===== src/Machine/Fdt/Order.antt =====
-- `fdt_scan` calls the callbacks in the order of the tree.
use boom_stop.Base.{
  ℕ, zero, suc, ◌+◌, ◌*◌, ◌/◌, ◌^◌, ◌<◌, ◌≤◌, ◌≡◌, refl, sym, ap, subst, ◌∙◌, Bool, true, false,
  List, [], ◌∷◌, length, if◌then◌else◌, ◌==◌, arith, ltb,
}
use boom_stop.Base.Cmd.{Cmd, pure, and_then}
use boom_stop.Util.{Mem}
use boom_stop.Machine.Fdt.{
  Node, Prop, Scan, Scanned, Callbacks, token, set_node_cells, new_child, first_node, fdt_nop,
  fdt_prop, fdt_begin_node, fdt_end_node, done_unless, scan_prop, scan_child, scan_helper, fdt_scan,
  is_understood, read_prop, after_prop,
}
use boom_stop.Machine.Fdt.Layout.{
  Body, finish, skip, attr, child, size, tokens, Ending, Laid, Event, property, finished_unless,
  node_after, events, play,
}
use boom_stop.Machine.Fdt.Plays.{
  Reads, Plays, and_then-and_then, and_then-unit, scan_prop-Plays, scan_child-Plays,
}

module _ {S : Type 0} (cb : Callbacks S) (m : Mem) (strings : ℕ) (reads : Reads cb m) where
  -- The pointer at which a scan of a body at `a` ends.
  abbrev end_of : (top : Bool) → Body → ℕ → ℕ
  end_of top body a = if top then a + size body else a + size body + 4

  done-Plays :
      (last : Bool) (node : List Node) (r : Scanned)
      → Plays cb m reads
          (λ s. and_then (done_unless last cb node s) (λ _. pure r))
          (finished_unless last node)
          r
  unfolding done_unless
  done-Plays true node r s e = refl
  done-Plays false [] r s e = refl
  done-Plays false (node ∷ parents) r s e =
      sym (and_then-and_then (cb.on_done (node ∷ parents) s) (λ _. pure tt) (λ _. pure r))

  Plays-end :
      (run : Cmd (Scan S) Scanned) (es : List Event) (x y : ℕ) (node : List Node)
      → Plays cb m reads run es (record { lex = x; node = node })
      → x ≡ y
      → Plays cb m reads run es (record { lex = y; node = node })
  Plays-end run es x y node p e =
      subst (λ z. Plays cb m reads run es (record { lex = z; node = node })) e p

  finish-Plays :
      (top last : Bool) (fuel a : ℕ) (node : List Node) (next : Node)
      → Ending m top a
      → Plays cb m reads
          (scan_helper cb strings (suc fuel) a node next last)
          (finished_unless last node)
          (record { lex = end_of top finish a; node = node })
  unfolding scan_helper
  finish-Plays true last fuel a node next above s e =
      let t : token s.mem a ≡ token m a = ap (λ x. token x a) e in
      let n1 : (token s.mem a == fdt_nop) ≡ false = rw t (ground arith) in
      let n2 : (token s.mem a == fdt_prop) ≡ false = rw t (ground arith) in
      let n3 : (token s.mem a == fdt_begin_node) ≡ false = rw t (ground arith) in
      let n4 : (token s.mem a == fdt_end_node) ≡ false = rw t (ground arith) in
      let z : a + 0 ≡ a = omega arith in
      rw (n1, n2, n3, n4, z) (done-Plays last node (record { lex = a; node = node }) s e)
  finish-Plays false last fuel a node next at_end s e =
      let t : token s.mem a ≡ fdt_end_node = ap (λ x. token x a) e ∙ at_end in
      let z : a + 0 ≡ a = omega arith in
      rw (t, z) (done-Plays last node (record { lex = a + 4; node = node }) s e)

  -- The steps of the scan at each kind of token.
  module _ (fuel a : ℕ) (node : List Node) (next : Node) (last : Bool) (s : Scan S) where
    at_nop :
        token s.mem a ≡ fdt_nop
        → scan_helper cb strings (suc fuel) a node next last s
          ≡ scan_helper cb strings fuel (a + 4) node next last s
    unfolding scan_helper
    at_nop t = rw t refl

    at_prop :
        token s.mem a ≡ fdt_prop
        → scan_helper cb strings (suc fuel) a node next last s
          ≡ scan_prop
              (scan_helper cb strings fuel)
              cb
              a
              next
              last
              (read_prop strings a node s.mem)
              s
    unfolding scan_helper
    at_prop t = rw t refl

    at_begin_node :
        token s.mem a ≡ fdt_begin_node
        → scan_helper cb strings (suc fuel) a node next last s
          ≡ scan_child (scan_helper cb strings fuel) cb a node next last s
    unfolding scan_helper
    at_begin_node t = rw t refl

  -- At a property, with its words read.
  attr-Plays :
      (name len first fuel a : ℕ) (node : List Node) (next : Node) (es : List Event) (r : Scanned)
      → token m a ≡ fdt_prop
      → token m (a + 4) ≡ len
      → len < 2 ^ 31
      → token m (a + 8) ≡ name
      → token m (a + 12) ≡ first
      → Plays cb m reads
          (scan_helper cb strings fuel
            (a + 12 + (len + 3) / 4 * 4)
            (set_node_cells m (strings + name) first node)
            next
            false)
          es
          r
      → Plays cb m reads
          (scan_helper cb strings (suc fuel) a node next false)
          (property (record {
            node = set_node_cells m (strings + name) first node;
            name = strings + name;
            value = a + 12;
            len = len;
          })
            ∷ es)
          r
  attr-Plays name len first fuel a node next es r t n small nm f later s e =
      let node1 = set_node_cells m (strings + name) first node in
      let p : Prop = record { node = node1; name = strings + name; value = a + 12; len = len } in
      let same : read_prop strings a node s.mem ≡ p =
        ap (read_prop strings a node) e ∙ rw (n, nm, f) refl in
      let w : ltb len (2 ^ 31) ≡ true = ground arith in
      let after : after_prop a len ≡ a + 12 + (len + 3) / 4 * 4 = rw w refl in
      at_prop fuel a node next false s (ap (λ x. token x a) e ∙ t)
      ∙ ap (λ x. scan_prop (scan_helper cb strings fuel) cb a next false x s) same
      ∙ scan_prop-Plays cb m reads (scan_helper cb strings fuel) a next p es r
          (subst (λ x. Plays cb m reads (scan_helper cb strings fuel x node1 next false) es r)
            (sym after) later)
          s e

  pub scan_helper-Plays :
      (top last : Bool) (body : Body) (fuel a : ℕ) (node : List Node) (next : Node)
      → tokens body ≤ fuel
      → Laid m top last body a
      → Plays cb m reads
          (scan_helper cb strings fuel a node next last)
          (events m strings body a node next last)
          (record { lex = end_of top body a; node = node_after m strings body node })
  scan_helper-Plays top last finish zero a node next enough laid s e = ground arith
  scan_helper-Plays top last (skip rest) zero a node next enough laid s e = ground arith
  scan_helper-Plays top last (attr name len first rest) zero a node next enough laid s e =
      ground arith
  scan_helper-Plays top last (child xs inner rest) zero a node next enough laid s e = ground arith
  scan_helper-Plays top last finish (suc fuel) a node next enough laid s e =
      finish-Plays top last fuel a node next laid s e
  scan_helper-Plays top last (skip rest) (suc fuel) a node next enough (t, laid) s e =
      at_nop fuel a node next last s (ap (λ x. token x a) e ∙ t)
      ∙ Plays-end (scan_helper cb strings fuel (a + 4) node next last)
          (events m strings rest (a + 4) node next last) (end_of top rest (a + 4))
          (end_of top (skip rest) a) (node_after m strings rest node)
          (scan_helper-Plays top last rest fuel (a + 4) node next (omega (arith, enough)) laid)
          (ground arith) s e
  scan_helper-Plays top last (attr name len first rest) (suc fuel) a node next enough
        (t, l, n, small, nm, f, laid) s e =
      let node1 = set_node_cells m (strings + name) first node in
      let start = a + 12 + (len + 3) / 4 * 4 in
      let later =
        Plays-end (scan_helper cb strings fuel start node1 next false)
          (events m strings rest start node1 next false) (end_of top rest start)
          (end_of top (attr name len first rest) a) (node_after m strings rest node1)
          (scan_helper-Plays top false rest fuel start node1 next (omega (arith, enough)) laid)
          (ground arith) in
      subst
        (λ b.
          Plays cb m reads (scan_helper cb strings (suc fuel) a node next b)
            (events m strings (attr name len first rest) a node next b)
            (record {
              lex = end_of top (attr name len first rest) a;
              node = node_after m strings rest node1;
            }))
        (sym l) (attr-Plays name len first fuel a node next _ _ t n small nm f later) s e
  scan_helper-Plays top last (child xs inner rest) (suc fuel) a node next enough
        (t, stored, small, laid, more) s e =
      let start = a + 8 + length xs / 4 * 4 in
      let opened_node = record next { name = a + 4 } ∷ node in
      let closed_node = node_after m strings inner opened_node in
      let stop = start + (size inner + 4) in
      let one =
        Plays-end _ _ (end_of false inner start) stop closed_node
          (scan_helper-Plays false false inner fuel start opened_node new_child
            (omega (arith, enough)) laid)
          (omega arith) in
      let others =
        Plays-end (scan_helper cb strings fuel stop node (first_node closed_node) true)
          (events m strings rest stop node (first_node closed_node) true) (end_of top rest stop)
          (end_of top (child xs inner rest) a) (node_after m strings rest node)
          (scan_helper-Plays top true rest fuel stop node (first_node closed_node)
            (omega (arith, enough)) more)
          (ground arith) in
      at_begin_node fuel a node next last s (ap (λ x. token x a) e ∙ t)
      ∙ scan_child-Plays cb m reads (scan_helper cb strings fuel) xs a node next last
          (events m strings inner start opened_node new_child false)
          (events m strings rest stop node (first_node closed_node) true)
          (record { lex = stop; node = closed_node }) _ stored small one others s e

-- For a device tree of at most 2 ^ 64 tokens that is understood and laid out in memory, with
-- callbacks that leave the memory alone and delete nothing, `fdt_scan` makes exactly the calls of
-- the tree in its order: of each node the opening, its properties, the end of its properties once,
-- its children, and the closing, with the cell counts that were read by then.
pub fdt_scan-play :
    {S : Type 0} (cb : Callbacks S) (fdt : ℕ) (body : Body) (s : Scan S)
    → Reads cb s.mem
    → is_understood s.mem fdt ≡ true
    → Laid s.mem true false body (fdt + token s.mem (fdt + 8))
    → tokens body ≤ 2 ^ 64
    → fdt_scan fdt cb s
      ≡ play cb
          (events s.mem
            (fdt + token s.mem (fdt + 12))
            body
            (fdt + token s.mem (fdt + 8))
            []
            new_child
            false)
          s
unfolding fdt_scan
fdt_scan-play cb fdt body s reads known laid small =
    let strings = fdt + token s.mem (fdt + 12) in
    let lex = fdt + token s.mem (fdt + 8) in
    let run =
      scan_helper-Plays cb s.mem strings reads true false body (2 ^ 64) lex [] new_child small laid
        s refl in
    rw (known, run)
      (and_then-and_then (play cb (events s.mem strings body lex [] new_child false) s)
          (λ _. pure _) (λ _. pure tt)
        ∙ and_then-unit (play cb (events s.mem strings body lex [] new_child false) s))
