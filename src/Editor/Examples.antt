-- ===== src/Editor/Examples.antt =====
-- The editor's theorems on a document of two lines, `# Title` and `*one*`.
use mathlib.Core.List.{Memᴰ}
use oxidt_kit.Kit.{
  ◌↔◌, ◌≢◌, trim, map, ℕ, suc, ◌+◌, ◌-◌, ◌≤◌, ◌≡◌, refl, leb, ◌==◌, true, false, Text, codes,
  length, none, some, List, [], ◌∷◌, arith, if◌then◌else◌,
}
use oxidt_kit.Editor.Document.{
  Line, Document, IsDocument, Range, emphasis, fenced_code, code_mark, code_info, code_text, other,
}
use oxidt_kit.Editor.Slash.{
  Default, defaults, command, commands, Context, Completions, Transaction, slash_source, apply,
}
use oxidt_kit.Editor.Slash.Menu.{slash_source_complete, apply-anchor}
use oxidt_kit.Editor.Slash.Exact.{Opens, Offered, slash_source_lem}
use oxidt_kit.Editor.Preview.Ranges.{editing, hide, line_starts, active_lines}
use oxidt_kit.Editor.Preview.Nodes.{
  Name-discrete, Node, enter, diagram_source, Decoration, line_class, h, code_line,
}
use oxidt_kit.Editor.Preview.Walk.{put_all, empty_walk, decorations}
use oxidt_kit.Editor.Preview.Walk.Once.{once, entered_all, sorted, decorations-once}
use oxidt_kit.Editor.Preview.Walk.Shown.{Shown}
use oxidt_kit.Editor.Preview.Walk.Classes.{IsMap, gives, given, line_classes_lem}
use oxidt_kit.Editor.Preview.Hide.{Covered, hide-Covered}
use oxidt_kit.Editor.Preview.Visible.{Spares, decorations-Spares}
use oxidt_kit.Editor.Preview.Blocks.{Block, diagram, enter_block}
use oxidt_kit.Editor.Preview.Blocks.Click.{active_of, mousedown, mousedown-enter_block}
use oxidt_kit.Editor.Preview.Blocks.Exposed.{enter_block-whole, diagram_exposed}

-- Two lines, of 7 and 5 characters.
abbrev lines_at : ℕ → Line
lines_at i =
    if leb i 7
    then record { from = 0; to = 7; text = codes "# Title" }
    else record { from = 8; to = 13; text = codes "*one*" }

abbrev two_lines : Document
two_lines = record {
  length = 13;
  line_at = lines_at;
  slice = λ from to. [];
  is_break = λ i. i == 7;
}

two_lines-IsDocument : IsDocument two_lines
two_lines-IsDocument = record {
  from-le = λ i h. ground arith;
  le-to = λ i h. ground arith;
  to-le = λ i h. ground arith;
  same_line = λ i j h a b. ground arith;
  next_line = λ i h a. ground arith;
  unbroken = λ i j h a b. ground arith;
}

-- With the cursor on the second line, its syntax stays.
abbrev second : List Range
second = record { from = 8; to = 13 } ∷ []

hide-Covered_example : Covered 1 (hide two_lines second 0 13)
hide-Covered_example =
    (hide-Covered two_lines two_lines-IsDocument second 13 (omega arith) 0 1).1
      (omega arith, omega arith, omega arith, refl)

abbrev one : Node
one = record {
  name = emphasis;
  from = 8;
  to = 13;
  children =
      record { name = other; from = 8; to = 9 } ∷ record { name = other; from = 12; to = 13 } ∷ [];
  grandparent = none;
}

decorations-Spares_example : Shown (Spares second) (decorations two_lines second (one ∷ one ∷ []))
decorations-Spares_example = decorations-Spares two_lines second (one ∷ one ∷ [])

-- A document of one line that is a command's beginning, and one that is a diagram in one line: the
-- laws hold of any document of one line.
abbrev line_document : Text → Text → Document
line_document t sliced = record {
  length = length t;
  line_at = λ i. record { from = 0; to = length t; text = t };
  slice = λ from to. sliced;
  is_break = λ i. false;
}

line_document-IsDocument : (t sliced : Text) → IsDocument (line_document t sliced)
line_document-IsDocument t sliced = record {
  from-le = λ i h. omega arith;
  le-to = λ i h. h;
  to-le = λ i h. omega arith;
  same_line = λ i j h a b. refl;
  next_line = λ i h a. absurd (omega arith);
  unbroken = λ i j h a b. refl;
}

abbrev typing : Context
typing = record {
  read_only = false;
  editable = true;
  main = record { from = 3; to = 3 };
  other_ranges = [];
  doc = line_document (codes "/qu") [];
  enclosing = λ i. [];
  pos = 3;
}

abbrev quote_only : Completions
quote_only = record {
  from = 0;
  options =
      record { label = codes "/quote"; detail = "Quote"; insert = codes "> "; cursor = 2 } ∷ [];
}

slash_source_lem_example : (slash_source (commands []) typing ≡ some quote_only) ↔ (
    Opens typing
    × (quote_only.from ≡ 0)
    × Offered (codes "/qu") (commands []) quote_only.options
    × (quote_only.options ≢ []))
slash_source_lem_example = slash_source_lem (commands []) typing quote_only

-- The menu is open, so both sides hold.
menu_test : Opens typing
unfolding slash_source commands
menu_test = ((slash_source_lem (commands []) typing quote_only).0 refl).0

-- The seventh entry.
abbrev quote : Default
quote = record { name = "quote"; detail = "Quote"; insert = codes "> "; cursor = none }

quote-mem : Memᴰ quote defaults
quote-mem = Memᴰ.tail (Memᴰ.tail (Memᴰ.tail (Memᴰ.tail (Memᴰ.tail (Memᴰ.tail (Memᴰ.head refl))))))

slash_source_complete_example :
    (r : Completions) × (slash_source (commands []) typing ≡ some r)
    × (r.from ≡ 0)
    × Memᴰ (command [] quote) r.options
unfolding command
slash_source_complete_example =
    slash_source_complete [] quote 2 typing quote-mem refl refl refl refl

quote_command : Memᴰ (command [] quote) (commands [])
unfolding commands
quote_command =
    Memᴰ.tail (Memᴰ.tail (Memᴰ.tail (Memᴰ.tail (Memᴰ.tail (Memᴰ.tail (Memᴰ.head refl))))))

abbrev inserted : Transaction
inserted = record { from = 0; to = 3; insert = codes "> "; anchor = 2 }

apply-anchor_test :
    (typing.read_only ≡ false)
    × (typing.editable ≡ true)
    × (inserted.from ≡ 0)
    × (inserted.to ≡ 3)
    × (0 ≤ inserted.anchor)
    × (inserted.anchor ≤ 0 + length inserted.insert)
    × (inserted.anchor ≤ 3 + length inserted.insert - (3 - 0))
unfolding apply commands command
apply-anchor_test =
    apply-anchor [] (command [] quote) typing 0 3 3 inserted quote_command (omega arith)
      (omega arith) refl

-- A fence whose children say that it holds a diagram; every slice reads `mermaid`.
abbrev fence : Node
fence = record {
  name = fenced_code;
  from = 0;
  to = 10;
  children =
      record { name = code_mark; from = 0; to = 3 }
      ∷ record { name = code_info; from = 3; to = 10 }
      ∷ record { name = code_text; from = 10; to = 10 }
      ∷ record { name = code_mark; from = 10; to = 10 }
      ∷ [];
  grandparent = none;
}

abbrev diagram_line : Document
diagram_line = line_document (codes "```mermaid") (codes "mermaid")

abbrev drawn : Block
drawn = record { from = 0; to = 10; widget = diagram (codes "mermaid") }

enter_block-whole_test :
    (drawn.from ≡ (diagram_line.line_at drawn.from).from)
    × (drawn.to ≡ (diagram_line.line_at drawn.to).to)
    × (drawn.from ≤ fence.from)
    × (fence.to ≤ suc drawn.to)
    × (editing [] drawn.from drawn.to ≡ false)
unfolding enter_block diagram_source trim Name-discrete
enter_block-whole_test =
    enter_block-whole diagram_line (line_document-IsDocument (codes "```mermaid") (codes "mermaid"))
      [] fence [] drawn (omega arith) (omega arith) refl

-- With the cursor in it.
abbrev within : List Range
within = record { from = 4; to = 4 } ∷ []

diagram_exposed_example :
    enter diagram_line (active_lines diagram_line within true) fence
    ≡ some (record {
      decorations = map (line_class code_line) (line_starts diagram_line 0 10);
      descends = false;
    })
unfolding enter_block diagram_source trim active_lines Name-discrete
diagram_exposed_example =
    diagram_exposed diagram_line (line_document-IsDocument (codes "```mermaid") (codes "mermaid"))
      within true fence [] (codes "mermaid") (omega arith) (omega arith) (omega arith) refl refl
      refl

-- Two ranges that both meet the emphasis.
decorations-once_example :
    decorations two_lines [] (one ∷ one ∷ [])
    ≡ sorted [] [] (entered_all two_lines [] (once [] (one ∷ one ∷ [])))
decorations-once_example = decorations-once two_lines [] (one ∷ one ∷ [])

-- A line within a heading and within code.
abbrev two_classes : List Decoration
two_classes = line_class (h 1) 0 ∷ line_class code_line 0 ∷ line_class (h 1) 0 ∷ []

line_classes_lem_example :
    IsMap (put_all two_classes empty_walk).line_classes
    × (gives code_line 0 (put_all two_classes empty_walk).line_classes
        ≡ given code_line 0 two_classes)
line_classes_lem_example = line_classes_lem two_classes code_line 0

-- The diagram is clicked.
mousedown-enter_block_example :
    enter_block diagram_line (active_of diagram_line (mousedown drawn.from)) fence [] ≡ none
unfolding enter_block diagram_source trim Name-discrete
mousedown-enter_block_example =
    mousedown-enter_block diagram_line
      (line_document-IsDocument (codes "```mermaid") (codes "mermaid")) [] fence [] drawn
      (omega arith) (omega arith) refl
