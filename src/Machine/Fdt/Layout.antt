-- ===== src/Machine/Fdt/Layout.antt =====
-- A device tree as it is written into memory, and the calls of the callbacks that its scan makes, in
-- the order of the tree.
use boom_stop.Base.{
  ℕ, suc, ◌+◌, ◌*◌, ◌/◌, ◌^◌, ◌<◌, ◌≡◌, Bool, true, false, List, [], ◌∷◌, ◌++◌, length,
}
use boom_stop.Base.Cmd.{Cmd, pure, ◌>>◌}
use boom_stop.Util.{Mem}
use boom_stop.Util.Text.Stored.{Stored}
use boom_stop.Machine.Fdt.{
  Node, Prop, Scan, Callbacks, token, set_node_cells, new_child, first_node, fdt_nop, fdt_prop,
  fdt_begin_node, fdt_end_node,
}

-- What stands in a node after its name: properties, with the offset of their name, their length and
-- the first word of their value, then children with their names.
pub data Body : Type 0 where
  finish : Body
  skip : Body → Body
  attr : (name len first : ℕ) → Body → Body
  child : List ℕ → Body → Body → Body

-- The bytes up to the last token, and the number of tokens.
abbrev pub size : Body → ℕ
size finish = 0
size (skip rest) = 4 + size rest
size (attr name len first rest) = 12 + (len + 3) / 4 * 4 + size rest
size (child xs inner rest) = 8 + length xs / 4 * 4 + (size inner + 4) + size rest

abbrev pub tokens : Body → ℕ
tokens finish = 1
tokens (skip rest) = suc (tokens rest)
tokens (attr name len first rest) = suc (tokens rest)
tokens (child xs inner rest) = suc (tokens inner + tokens rest)

-- The last token: the end of a node, or that of the tree.
abbrev pub Ending : Mem → (top : Bool) → ℕ → Type 0
Ending m true a = 4 < token m a
Ending m false a = token m a ≡ fdt_end_node

-- The tokens of a body from `a` on, where a child has come already if `last`.
abbrev pub Laid : Mem → (top last : Bool) → Body → ℕ → Type 0
Laid m top last finish a = Ending m top a
Laid m top last (skip rest) a = (token m a ≡ fdt_nop) × Laid m top last rest (a + 4)
Laid m top last (attr name len first rest) a =
    (token m a ≡ fdt_prop)
    × (last ≡ false)
    × (token m (a + 4) ≡ len)
    × (len < 2 ^ 31)
    × (token m (a + 8) ≡ name)
    × (token m (a + 12) ≡ first)
    × Laid m top false rest (a + 12 + (len + 3) / 4 * 4)
Laid m top last (child xs inner rest) a =
    (token m a ≡ fdt_begin_node)
    × Stored m (a + 4) xs
    × (a + 4 + length xs < 2 ^ 64)
    × Laid m false false inner (a + 8 + length xs / 4 * 4)
    × Laid m top true rest (a + 8 + length xs / 4 * 4 + (size inner + 4))

pub data Event : Type 0 where
  opened : List Node → Event
  property : Prop → Event
  finished : List Node → Event
  closed : List Node → Event

-- The end of the properties of a node, which is no event of the null node.
abbrev pub finished_unless : (last : Bool) → List Node → List Event
finished_unless true node = []
finished_unless false [] = []
finished_unless false (node ∷ parents) = finished (node ∷ parents) ∷ []

module _ (m : Mem) (strings : ℕ) where
  -- The node after the cell counts among its properties.
  abbrev pub node_after : Body → List Node → List Node
  node_after finish node = node
  node_after (skip rest) node = node_after rest node
  node_after (attr name len first rest) node =
      node_after rest (set_node_cells m (strings + name) first node)
  node_after (child xs inner rest) node = node_after rest node

  -- The calls for a body at `a`: the properties of the node in their order, the end of its
  -- properties once, and each child in its order, opened, then its body, then closed.
  abbrev pub events : Body → (a : ℕ) → List Node → (next : Node) → (last : Bool) → List Event
  events finish a node next last = finished_unless last node
  events (skip rest) a node next last = events rest (a + 4) node next last
  events (attr name len first rest) a node next last =
      property (record {
        node = set_node_cells m (strings + name) first node;
        name = strings + name;
        value = a + 12;
        len = len;
      })
      ∷ events rest (a + 12 + (len + 3) / 4 * 4) (set_node_cells m (strings + name) first node) next
          last
  events (child xs inner rest) a node next last =
      let opened_node = record next { name = a + 4 } ∷ node in
      let closed_node = node_after inner opened_node in
      let start = a + 8 + length xs / 4 * 4 in
      finished_unless last node
      ++ (opened opened_node
          ∷ (events inner start opened_node new_child false
              ++ (closed closed_node
                  ∷ events rest (start + (size inner + 4)) node (first_node closed_node) true)))

module _ {S : Type 0} (cb : Callbacks S) where
  abbrev pub call_of : Event → Cmd (Scan S) (Unit {0})
  call_of (opened node) = cb.on_open node
  call_of (property p) = cb.on_prop p
  call_of (finished node) = cb.on_done node
  call_of (closed node) = cb.on_close node >> pure tt

  abbrev pub play : List Event → Cmd (Scan S) (Unit {0})
  play [] = pure tt
  play (e ∷ es) = call_of e >> play es
