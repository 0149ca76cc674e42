-- ===== src/Editor/Preview/Widgets/Examples.antt =====
-- A table of two rows, and a diagram that does not parse.
use oxidt_kit.Kit.{◌≡◌, refl, Text, codes, some, List, [], ◌∷◌, ◌++◌}
use oxidt_kit.Editor.Preview.Widgets.{Options, Rendered, pele_error, Html, draw_table, draw_diagram}
use oxidt_kit.Editor.Preview.Widgets.Drawn.{
  read_table, table_cells, read_table-draw_table, diagram_error-text, text_content,
}

abbrev two_rows : List (List Text)
two_rows = (codes "a" ∷ codes "*b*" ∷ []) ∷ (codes "1" ∷ []) ∷ []

table_test : read_table (draw_table two_rows) ≡ table_cells two_rows
table_test = read_table-draw_table two_rows

abbrev refuses : Text → Options → Rendered
refuses source options = pele_error (codes "line 1")

diagram_test :
    (h : Html) × ((draw_diagram refuses [] (codes "grph") 4).1 ≡ some h)
    × (text_content h ≡ codes "Diagram: " ++ (codes "line 1" ++ codes "grph"))
diagram_test = diagram_error-text refuses [] (codes "grph") (codes "line 1") 4 refl
