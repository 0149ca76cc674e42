-- ===== src/Editor/Preview/Blocks/Click.antt =====
-- The listeners for `mousedown` on a diagram and on a table: the cursor goes where the widget is.
use oxidt_kit.Kit.{
  ℕ, ◌≤◌, ◌<◌, ◌≡◌, refl, sym, subst, Bool, true, Text, Option, none, some, List, [], ◌∷◌, arith,
}
use oxidt_kit.Editor.Document.{Document, IsDocument, Range, Name, fenced_code, table}
use oxidt_kit.Editor.Preview.Ranges.{editing, active_lines}
use oxidt_kit.Editor.Preview.Nodes.{Node, diagram_source}
use oxidt_kit.Editor.Preview.Blocks.{
  Row, Block, BlockWidget, diagram, block_start, block_end, last_position, block_of, diagram_block,
  block_name, enter_block,
}
use oxidt_kit.Editor.Preview.Blocks.Exposed.{enter_block-block_of, last_position-bounds}

-- The selection and the focus.
pub record Focus : Type 0 where
  pub selection : List Range
  pub focused : Bool

-- `view.dispatch({ selection: { anchor: from } }); view.focus()`, where `from` is the position that
-- CodeMirror has for the widget.
unfoldable pub mousedown : ℕ → Focus
mousedown from = record { selection = record { from = from; to = from } ∷ []; focused = true }

abbrev pub active_of : Document → Focus → List Range
active_of d f = active_lines d f.selection f.focused

module _ (d : Document) (law : IsDocument d) where
  start-le-end : (n : Node) → n.from < n.to → n.to ≤ d.length → block_start d n ≤ block_end d n
  start-le-end n lt within =
      let k = last_position-bounds d law n in
      omega (
        arith,
        k.0,
        k.1,
        law.from-le n.from (omega arith),
        law.le-to (last_position d n) (omega (arith, k.0)),
      )

  clicked-editing :
      (n : Node)
      → n.from < n.to
      → n.to ≤ d.length
      → editing (active_of d (mousedown (block_start d n))) (block_start d n) (block_end d n) ≡ true
  unfolding mousedown active_lines
  clicked-editing n lt within =
      let inside : block_start d n ≤ d.length = omega (arith, law.from-le n.from (omega arith)) in
      ground (
        arith,
        law.le-to (block_start d n) inside,
        law.from-le (block_start d n) inside,
        start-le-end n lt within,
      )

  edited-none :
      (active : List Range) (n : Node) (w : BlockWidget)
      → editing active (block_start d n) (block_end d n) ≡ true
      → block_of d active n w ≡ none
  edited-none active n w e = rw e refl

  diagram-none :
      (active : List Range) (n : Node) (o : Option Text)
      → editing active (block_start d n) (block_end d n) ≡ true
      → diagram_block d active n o ≡ none
  diagram-none active n none e = refl
  diagram-none active n (some source) e = edited-none active n (diagram source) e

  name-none :
      (name : Name) (active : List Range) (n : Node) (rows : List Row)
      → editing active (block_start d n) (block_end d n) ≡ true
      → block_name d name active n rows ≡ none
  unfolding block_name
  name-none fenced_code active n rows e = diagram-none active n (diagram_source d n.children) e
  name-none table active n rows e = edited-none active n _ e
  name-none _ active n rows e = refl

  block_of_edited :
      (active : List Range) (n : Node) (rows : List Row)
      → editing active (block_start d n) (block_end d n) ≡ true
      → enter_block d active n rows ≡ none
  unfolding enter_block
  block_of_edited active n rows e = name-none n.name active n rows e

  -- A click on a diagram or a table reveals its source: where a node of the document is shown as a
  -- block, and the cursor is then put at the block's start with the focus on the editor, the node is
  -- no block any more.
  pub mousedown-enter_block :
      (active : List Range) (n : Node) (rows : List Row) (b : Block)
      → n.from < n.to
      → n.to ≤ d.length
      → enter_block d active n rows ≡ some b
      → enter_block d (active_of d (mousedown b.from)) n rows ≡ none
  mousedown-enter_block active n rows b lt within e =
      block_of_edited (active_of d (mousedown b.from)) n rows (
        subst (λ at. editing (active_of d (mousedown at)) (block_start d n) (block_end d n) ≡ true)
          (sym (enter_block-block_of d active n rows b e).0) (clicked-editing n lt within))
