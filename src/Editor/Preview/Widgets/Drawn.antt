-- ===== src/Editor/Preview/Widgets/Drawn.antt =====
-- What is drawn shows what it stands for.
use oxidt_kit.Kit.{
  ℕ, suc, ◌≡◌, refl, ap, true, false, Text, String, codes, text_eq, text_eq_sound, some, List, [],
  ◌∷◌, ◌++◌, arith,
}
use oxidt_kit.Editor.Preview.Nodes.{Widget, image_widget, bullet}
use oxidt_kit.Editor.Preview.Widgets.{
  Html, diagram_element, leaf, element, text, markup, Children, childless, child, Options, Rendered,
  pele_error, cell_tag, draw_cells, draw_rows, draw_table, draw_diagram, draw_inline, inline_eq,
}

-- `textContent`, and the tags and texts of a row's cells.
abbrev mutual
  pub text_content : Html → Text
  text_content (element tag class attributes cs) = all_text cs
  text_content (text t) = t
  text_content (markup t) = []

  pub all_text : Children → Text
  all_text childless = []
  all_text (child h cs) = text_content h ++ all_text cs

abbrev pub Cell : Type 0
Cell = String × Text

abbrev pub read_cell : Html → List Cell
read_cell (element tag class attributes cs) = (tag, all_text cs) ∷ []
read_cell _ = []

abbrev pub read_cells : Children → List Cell
read_cells childless = []
read_cells (child h cs) = read_cell h ++ read_cells cs

abbrev pub read_row : Html → List (List Cell)
read_row (element tag class attributes cs) = read_cells cs ∷ []
read_row _ = []

abbrev pub read_rows : Children → List (List Cell)
read_rows childless = []
read_rows (child h cs) = read_row h ++ read_rows cs

-- The rows of a table's bodies.
abbrev pub read_bodies : Children → List (List Cell)
read_bodies childless = []
read_bodies (child (element tag class attributes rows) cs) = read_rows rows ++ read_bodies cs
read_bodies (child h cs) = read_bodies cs

abbrev pub read_table : Html → List (List Cell)
read_table (element tag class attributes cs) = read_bodies cs
read_table _ = []

abbrev pub cells_of : String → List Text → List Cell
cells_of tag [] = []
cells_of tag (t ∷ ts) = (tag, t) ∷ cells_of tag ts

abbrev pub data_rows : List (List Text) → List (List Cell)
data_rows [] = []
data_rows (cells ∷ rows) = cells_of "td" cells ∷ data_rows rows

-- The first row is the table's header.
abbrev pub table_cells : List (List Text) → List (List Cell)
table_cells [] = []
table_cells (cells ∷ rows) = cells_of "th" cells ∷ data_rows rows

append_empty {ℓ} : {A : Type ℓ} → (xs : List A) → xs ++ [] ≡ xs
append_empty [] = refl
append_empty (x ∷ xs) = ap (λ ys. x ∷ ys) (append_empty xs)

read_cells-draw_cells :
    (i : ℕ) (ts : List Text) → read_cells (draw_cells i ts) ≡ cells_of (cell_tag i) ts
read_cells-draw_cells i [] = refl
read_cells-draw_cells i (t ∷ ts) = rw (append_empty t, read_cells-draw_cells i ts) refl

read_rows-draw_rows :
    (i : ℕ) (rows : List (List Text)) → read_rows (draw_rows (suc i) rows) ≡ data_rows rows
read_rows-draw_rows i [] = refl
read_rows-draw_rows i (cells ∷ rows) =
    rw (read_cells-draw_cells (suc i) cells, read_rows-draw_rows (suc i) rows) refl

-- The table that is drawn has a row for each row of the source, with a cell for each of its cells
-- that holds the cell's text as it is, no markup: header cells in the first row, data cells in the
-- others.
pub read_table-draw_table :
    (rows : List (List Text)) → read_table (draw_table rows) ≡ table_cells rows
unfolding draw_table
read_table-draw_table [] = refl
read_table-draw_table (cells ∷ rows) =
    rw
      (
        append_empty (read_rows (draw_rows 1 rows)),
        read_cells-draw_cells 0 cells,
        read_rows-draw_rows 0 rows,
      )
      refl

-- Two inline widgets that `eq` takes for equal draw the same.
pub inline_eq-draw_inline : (w v : Widget) → inline_eq w v ≡ true → draw_inline w ≡ draw_inline v
unfolding inline_eq draw_inline
inline_eq-draw_inline bullet bullet h = refl
inline_eq-draw_inline bullet (image_widget src alt) h = absurd (ground arith)
inline_eq-draw_inline (image_widget src alt) bullet h = absurd (ground arith)
inline_eq-draw_inline (image_widget src alt) (image_widget other_src other_alt) h =
    let same_src : text_eq other_src src ≡ true = ground (arith, h) in
    let same_alt : text_eq other_alt alt ≡ true = ground (arith, h) in
    rw (text_eq_sound other_src src same_src, text_eq_sound other_alt alt same_alt) refl

abbrev error_element : Text → Text → Html
error_element m source = diagram_element (
    child (leaf "div" "md-diagram-error" (codes "Diagram: " ++ m))
      (child (leaf "pre" "" source) childless))

-- A diagram that does not parse shows the renderer's message and the source.
pub diagram_error-text :
    (render : Text → Options → Rendered) (font source m : Text) (id : ℕ)
    → render source
        (record { font_family = font; id_prefix = suc id; links = false; images = false })
      ≡ pele_error m
    → (h : Html) × ((draw_diagram render font source id).1 ≡ some h)
      × (text_content h ≡ codes "Diagram: " ++ (m ++ source))
unfolding draw_diagram
diagram_error-text render font source m id e =
    rw e (error_element m source, refl, simp append_empty)
