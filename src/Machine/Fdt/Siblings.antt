-- ===== src/Machine/Fdt/Siblings.antt =====
-- The cell counts of a node and of the one after it.
use boom_stop.Base.{ℕ, ◌+◌, ◌*◌, ◌/◌, ◌≤◌, ◌≡◌, refl, ◌∙◌, ap, true, false, List, [], ◌∷◌, length}
use boom_stop.Base.Cmd.{pure, and_then}
use boom_stop.Util.{Mem}
use boom_stop.Machine.Fdt.{
  Node, Scan, Callbacks, is_text, set_cells, scan_helper, new_child, address_cells_text,
  size_cells_text,
}
use boom_stop.Machine.Fdt.Layout.{
  Body, finish, attr, child, Laid, Event, opened, property, finished, closed, play, size,
}
use boom_stop.Machine.Fdt.Order.{scan_helper-Plays}
use boom_stop.Machine.Fdt.Plays.{Reads}

-- A child with no more than its first property, and then a node without any.
abbrev pub two_children : (xs ys : List ℕ) (name len n : ℕ) → Body
two_children xs ys name len n = child xs (attr name len n finish) (child ys finish finish)

abbrev pub first_child : (a n : ℕ) → Node
first_child a n = record { name = a + 4; address_cells = n; size_cells = 1 }

-- Where the second child begins.
abbrev pub second_at : (xs : List ℕ) (len a : ℕ) → ℕ
second_at xs len a = a + 8 + length xs / 4 * 4 + (12 + (len + 3) / 4 * 4 + 0 + 4)

set_cells_lem :
    (m : Mem) (name n a : ℕ)
    → is_text m name address_cells_text ≡ true
    → is_text m name size_cells_text ≡ false
    → set_cells m name n (record { name = a; address_cells = 2; size_cells = 1 })
      ≡ record { name = a; address_cells = n; size_cells = 1 }
unfolding set_cells
set_cells_lem m name n a t f = rw (t, f) refl

-- The calls for them below `node`, where the second child has as many address cells as its sibling
-- says.
abbrev pub inherited_events :
    (strings a name len n : ℕ) (xs ys : List ℕ) (node : List Node) → List Event
inherited_events strings a name len n xs ys node =
    finished node
    ∷ opened (record new_child { name = a + 4 } ∷ node)
    ∷ property (record {
      node = first_child a n ∷ node;
      name = strings + name;
      value = a + 8 + length xs / 4 * 4 + 12;
      len = len;
    })
    ∷ finished (first_child a n ∷ node)
    ∷ closed (first_child a n ∷ node)
    ∷ opened (first_child (second_at xs len a) n ∷ node)
    ∷ finished (first_child (second_at xs len a) n ∷ node)
    ∷ closed (first_child (second_at xs len a) n ∷ node)
    ∷ []

-- With callbacks that leave the memory alone, a second child without properties is handed to the
-- callbacks with the address cells that the first child states for its own children, whatever their
-- number, and not with the default of 2.
pub second_child_inherits :
    {S : Type 0} (cb : Callbacks S) (strings fuel a name len n : ℕ) (xs ys : List ℕ) (parent : Node)
    (above : List Node) (s : Scan S)
    → Reads cb s.mem
    → Laid s.mem false false (two_children xs ys name len n) a
    → is_text s.mem (strings + name) address_cells_text ≡ true
    → is_text s.mem (strings + name) size_cells_text ≡ false
    → 6 ≤ fuel
    → scan_helper cb strings fuel a (parent ∷ above) new_child false s
      ≡ and_then (play cb (inherited_events strings a name len n xs ys (parent ∷ above)) s) (λ _.
        pure (record { lex = a + size (two_children xs ys name len n) + 4; node = parent ∷ above }))
second_child_inherits cb strings fuel a name len n xs ys parent above s reads laid is_cells not_size
      enough =
    scan_helper-Plays cb s.mem strings reads false false (two_children xs ys name len n) fuel a
      (parent ∷ above) new_child enough laid s refl
    ∙ ap
        (λ c.
          and_then
            (play cb
              (finished (parent ∷ above)
                ∷ opened (record new_child { name = a + 4 } ∷ parent ∷ above)
                ∷ property (record {
                  node = c ∷ parent ∷ above;
                  name = strings + name;
                  value = a + 8 + length xs / 4 * 4 + 12;
                  len = len;
                })
                ∷ finished (c ∷ parent ∷ above)
                ∷ closed (c ∷ parent ∷ above)
                ∷ opened (record c { name = second_at xs len a + 4 } ∷ parent ∷ above)
                ∷ finished (record c { name = second_at xs len a + 4 } ∷ parent ∷ above)
                ∷ closed (record c { name = second_at xs len a + 4 } ∷ parent ∷ above)
                ∷ [])
              s)
            (λ _. pure (record {
              lex = a + size (two_children xs ys name len n) + 4;
              node = parent ∷ above;
            })))
        (set_cells_lem s.mem (strings + name) n (a + 4) is_cells not_size)
