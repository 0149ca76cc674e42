-- ===== src/Editor/Preview/Widgets.antt =====
-- What the widgets draw, and when CodeMirror may keep what one drew for another: `toDOM` and `eq` of
-- DiagramWidget, Bullet, ImageWidget and TableWidget. The package that renders diagrams is a
-- parameter. The listeners for `mousedown` stand in Blocks/Click.antt.
pub mod Drawn
mod Examples
use oxidt_kit.Kit.{
  ℕ, zero, suc, ◌&&◌, Bool, true, false, Text, String, codes, text_eq, Option, none, some, List, [],
  ◌∷◌, ◌++◌,
}
use oxidt_kit.Editor.Preview.Nodes.{Widget, image_widget, bullet}
use oxidt_kit.Editor.Preview.Blocks.{BlockWidget, diagram, table_widget}

-- An element with its tag, its class, its attributes and its children; a text; the markup of
-- `innerHTML`.
mutual
  pub data Html : Type 0 where
    element : String → String → List (String × Text) → Children → Html
    text : Text → Html
    markup : Text → Html

  pub data Children : Type 0 where
    childless : Children
    child : Html → Children → Children

-- What `render` is called with. The prefix is "md-diagram-" with the number.
pub record Options : Type 0 where
  pub font_family : Text
  pub id_prefix : ℕ
  pub links : Bool
  pub images : Bool

-- How `render` returns: with markup, a PeleError with its message, or another error.
pub data Rendered : Type 0 where
  svg : Text → Rendered
  pele_error : Text → Rendered
  other_error : Rendered

abbrev pub leaf : String → String → Text → Html
leaf tag class t = element tag class [] (child (text t) childless)

abbrev pub diagram_element : Children → Html
diagram_element cs = element "div" "md-diagram" (("title", codes "Click to edit diagram") ∷ []) cs

-- `none` where it throws.
abbrev pub diagram_with : Text → Rendered → Option Html
diagram_with source (svg t) = some (diagram_element (child (markup t) childless))
diagram_with source (pele_error m) = some (
    diagram_element (
      child (leaf "div" "md-diagram-error" (codes "Diagram: " ++ m))
        (child (leaf "pre" "" source) childless)))
diagram_with source other_error = none

-- `DiagramWidget.toDOM`, with `diagramId` before and after.
unfoldable pub draw_diagram : (Text → Options → Rendered) → Text → Text → ℕ → ℕ × Option Html
draw_diagram render font source id =
    let options : Options = record {
      font_family = font;
      id_prefix = suc id;
      links = false;
      images = false;
    } in
    (suc id, diagram_with source (render source options))

-- `index === 0 ? "th" : "td"`.
abbrev pub cell_tag : ℕ → String
cell_tag zero = "th"
cell_tag (suc i) = "td"

abbrev pub draw_cells : ℕ → List Text → Children
draw_cells i [] = childless
draw_cells i (t ∷ ts) = child (leaf (cell_tag i) "" t) (draw_cells i ts)

abbrev pub draw_rows : ℕ → List (List Text) → Children
draw_rows i [] = childless
draw_rows i (cells ∷ rows) =
    child (element "tr" "" [] (draw_cells i cells)) (draw_rows (suc i) rows)

-- The first `insertRow` of a table adds a body too.
abbrev pub table_body : List (List Text) → Children
table_body [] = childless
table_body rows = child (element "tbody" "" [] (draw_rows 0 rows)) childless

-- `TableWidget.toDOM`.
unfoldable pub draw_table : List (List Text) → Html
draw_table rows = element "table" "md-table" [] (table_body rows)

-- A block widget's `toDOM`.
unfoldable pub draw_block : (Text → Options → Rendered) → Text → BlockWidget → ℕ → ℕ × Option Html
unfolding draw_diagram draw_table
draw_block render font (diagram source) id = draw_diagram render font source id
draw_block render font (table_widget rows source) id = (id, some (draw_table rows))

-- `Bullet.toDOM` and `ImageWidget.toDOM`.
abbrev pub draw_bullet : Html
draw_bullet = leaf "span" "md-bullet" (8226 ∷ [])

abbrev pub draw_image : Text → Text → Html
draw_image src alt = element "img" "md-image" (("src", src) ∷ ("alt", alt) ∷ []) childless

unfoldable pub draw_inline : Widget → Html
draw_inline bullet = draw_bullet
draw_inline (image_widget src alt) = draw_image src alt

-- `eq`, which CodeMirror calls on two widgets of one class.
unfoldable pub inline_eq : Widget → Widget → Bool
inline_eq bullet bullet = true
inline_eq (image_widget src alt) (image_widget other_src other_alt) =
    text_eq other_src src && text_eq other_alt alt
inline_eq _ _ = false

unfoldable pub block_eq : BlockWidget → BlockWidget → Bool
block_eq (diagram source) (diagram other) = text_eq other source
block_eq (table_widget rows source) (table_widget other_rows other) = text_eq other source
block_eq _ _ = false

-- `ignoreEvent`.
abbrev pub inline_ignores : Widget → Bool
inline_ignores w = false

abbrev pub block_ignores : BlockWidget → Bool
block_ignores w = true
