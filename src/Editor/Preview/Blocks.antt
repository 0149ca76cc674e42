-- ===== src/Editor/Preview/Blocks.antt =====
-- `blocks`: a table or a diagram is replaced as a block, unless one of its lines is edited.
pub mod Exposed
pub mod Click
use oxidt_kit.Kit.{
  ℕ, suc, ◌-◌, ◌||◌, Bool, true, false, Text, codes, text_eq, trim, Option, none, some, List, [],
  ◌∷◌, map, if◌then◌else◌,
}
use oxidt_kit.Editor.Document.{
  Line, Document, Range, Name, fenced_code, table, table_header, table_row, table_cell,
}
use oxidt_kit.Editor.Preview.Ranges.{editing}
use oxidt_kit.Editor.Preview.Nodes.{Child, Node, get_children, is_name, slice_of, diagram_source}

-- A child of a table, with its children.
pub record Row : Type 0 where
  pub name : Name
  pub children : List Child

pub data BlockWidget : Type 0 where
  diagram : Text → BlockWidget
  table_widget : List (List Text) → Text → BlockWidget  -- rows, source

pub record Block : Type 0 where
  pub from : ℕ
  pub to : ℕ
  pub widget : BlockWidget

module _ (d : Document) where
  abbrev pub cells : List Child → List Text
  cells cs = map (λ c. trim (slice_of d c)) (get_children table_cell cs)

  unfoldable pub table_rows : List Row → List (List Text)
  table_rows [] = []
  table_rows (r ∷ rs) =
      let rest = table_rows rs in
      if is_name r.name table_header || is_name r.name table_row
      then cells r.children ∷ rest
      else rest

  -- The first and the last line of a node, from the start of one to the end of the other.
  abbrev pub block_start : Node → ℕ
  block_start n = (d.line_at n.from).from

  abbrev pub last_position : Node → ℕ
  last_position n = if text_eq (d.slice (n.to - 1) n.to) (codes "\n") then n.to - 1 else n.to

  abbrev pub block_end : Node → ℕ
  block_end n = (d.line_at (last_position n)).to

  abbrev pub block_of : List Range → Node → BlockWidget → Option Block
  block_of active n w =
      if editing active (block_start n) (block_end n)
      then none
      else some (record { from = block_start n; to = block_end n; widget = w })

  abbrev pub diagram_block : List Range → Node → Option Text → Option Block
  diagram_block active n none = none
  diagram_block active n (some source) = block_of active n (diagram source)

  unfoldable pub block_name : Name → List Range → Node → List Row → Option Block
  unfolding table_rows
  block_name fenced_code active n rows = diagram_block active n (diagram_source d n.children)
  block_name table active n rows =
      block_of active n (table_widget (table_rows rows) (d.slice (block_start n) (block_end n)))
  block_name _ active n rows = none

  -- The callback of `blocks`.
  unfoldable pub enter_block : List Range → Node → List Row → Option Block
  unfolding block_name
  enter_block active n rows = block_name n.name active n rows
