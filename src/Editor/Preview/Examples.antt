-- ===== src/Editor/Preview/Examples.antt =====
-- An image over two lines, with `a` on the first and `b` on the second.
use oxidt_kit.Kit.{
  ℕ, zero, suc, ◌-◌, ◌==◌, ◌≡◌, ◌||◌, false, leb, refl, Text, codes, take, none, some, [], ◌∷◌,
  arith, if◌then◌else◌,
}
use oxidt_kit.Editor.Document.{
  Line, Document, IsDocument, image, link_mark, url, emphasis, table, other,
}
use oxidt_kit.Editor.Preview.Nodes.{Child, Node, enter_name, enter}
use oxidt_kit.Editor.Preview.Walk.{Walk, put_all, visit, empty_walk, decorations}
use oxidt_kit.Editor.Preview.Walk.Again.{is_table, visit-again}
use oxidt_kit.Editor.Preview.Walk.Shown.{Shown}
use oxidt_kit.Editor.Preview.Breaks.{Keeps, IsPlaced, decorations-Keeps}

abbrev drop : ℕ → Text → Text
drop zero t = t
drop (suc n) [] = []
drop (suc n) (c ∷ t) = drop n t

-- `![a`, a line break, and `b](u)`.
abbrev source : Text
source = codes "![a\nb](u)"

abbrev lines_at : ℕ → Line
lines_at i =
    if leb i 3
    then record { from = 0; to = 3; text = codes "![a" }
    else record { from = 4; to = 9; text = codes "b](u)" }

abbrev broken_image : Document
broken_image = record {
  length = 9;
  line_at = lines_at;
  slice = λ from to. take (to - from) (drop from source);
  is_break = λ i. i == 3;
}

broken_image-IsDocument : IsDocument broken_image
broken_image-IsDocument = record {
  from-le = λ i h. ground arith;
  le-to = λ i h. ground arith;
  to-le = λ i h. ground arith;
  same_line = λ i j h a b. ground arith;
  next_line = λ i h a. ground arith;
  unbroken = λ i j h a b. ground arith;
}

abbrev link_at : ℕ → ℕ → Child
link_at from to = record { name = link_mark; from = from; to = to }

abbrev picture : Child
picture = record { name = url; from = 7; to = 8 }

abbrev the_image : Node
the_image = record {
  name = image;
  from = 0;
  to = 9;
  children = link_at 0 2 ∷ link_at 5 6 ∷ link_at 6 7 ∷ picture ∷ link_at 8 9 ∷ [];
  grandparent = none;
}

-- Emphasis over both lines.
abbrev wide : Node
wide = record {
  name = emphasis;
  from = 0;
  to = 9;
  children =
      record { name = other; from = 0; to = 1 } ∷ record { name = other; from = 8; to = 9 } ∷ [];
  grandparent = none;
}

wide-IsPlaced : IsPlaced broken_image wide
wide-IsPlaced = ((omega arith, omega arith, (omega arith, (omega arith, tt))), tt)

decorations-Keeps_example : Shown (Keeps broken_image) (decorations broken_image [] (wide ∷ []))
decorations-Keeps_example =
    decorations-Keeps broken_image broken_image-IsDocument [] (wide ∷ []) (wide-IsPlaced, tt)

-- A table that two ranges meet.
abbrev a_table : Node
a_table = record { name = table; from = 0; to = 9; children = []; grandparent = none }

abbrev after_table : Walk
after_table = record empty_walk { visited = (table, 0) ∷ [] }

visit-again_test :
    visit broken_image [] a_table after_table ≡ some (after_table, false || is_table table)
unfolding visit enter enter_name put_all
visit-again_test = visit-again broken_image [] a_table empty_walk after_table false refl refl
