-- ===== src/Machine/Fdt/Fields.antt =====
-- machine/fdt.c: the fields of a property.
use boom_stop.Base.{
  ℕ, zero, suc, ◌+◌, ◌*◌, ◌^◌, not, Option, none, some, List, u64, ltb, if◌then◌else◌,
}
use boom_stop.Base.Cmd.{Cmd, panic, pure, ◌>>=◌}
use boom_stop.Util.{Mem}
use boom_stop.Util.Text.{strlen}
use boom_stop.Machine.Fdt.{Node, Prop, token, is_text}

-- The loops of `fdt_get_address` and `fdt_get_size`, over as many cells as `cells` says.
unfoldable pub get_cells : Mem → (cells value result : ℕ) → ℕ
get_cells m zero value result = result
get_cells m (suc cells) value result =
    get_cells m cells (value + 4) (u64 (result * 2 ^ 32 + token m value))

-- The rounds of a loop that counts an `int` down to 0.
abbrev pub rounds : ℕ → ℕ
rounds n = if ltb n (2 ^ 31) then n else 0

unfoldable pub fdt_get_address : Mem → Node → (value : ℕ) → ℕ
fdt_get_address m node value = get_cells m (rounds node.address_cells) value 0

unfoldable pub fdt_get_size : Mem → Node → (value : ℕ) → ℕ
fdt_get_size m node value = get_cells m (rounds node.size_cells) value 0

unfoldable pub fdt_get_value : Mem → Prop → (index : ℕ) → ℕ
fdt_get_value m p index = token m (p.value + 4 * index)

-- The loop of `fdt_string_list_index`, with an index below 0 as `none`, and `panic` for a loop or a
-- string without an end.
unfoldable pub string_list_from : (fuel end list index : ℕ) → List ℕ → Cmd Mem (Option ℕ)
string_list_from zero end list index str m = panic
string_list_from (suc fuel) end list index str m =
    (if not (ltb list end)
        then pure none
        else if is_text m list str
        then pure (some index)
        else do n ← strlen (2 ^ 64) list; string_list_from fuel end (list + n + 1) (index + 1) str)
      m

unfoldable pub fdt_string_list_index : Prop → List ℕ → Cmd Mem (Option ℕ)
fdt_string_list_index p str = string_list_from (2 ^ 32) (p.value + rounds p.len) p.value 0 str
