-- ===== src/Editor/Preview/Breaks.antt =====
-- Which decorations replace line breaks, as those of a view plugin must not.
use oxidt_kit.Kit.{ℕ, ◌≤◌, ◌<◌, ◌≡◌, false, inl, inr, List, [], ◌∷◌, map, All, arith}
use oxidt_kit.Editor.Document.{Document, IsDocument, Range}
use oxidt_kit.Editor.Preview.Ranges.{hide}
use oxidt_kit.Editor.Preview.Nodes.{Node, Decoration, mark, hidden, widget, line_class}
use oxidt_kit.Editor.Preview.Hide.{Covered, hide-unbroken}
use oxidt_kit.Editor.Preview.Every.{Rules, Hides, Replaces, enter-Entry}
use oxidt_kit.Editor.Preview.Walk.{decorations}
use oxidt_kit.Editor.Preview.Walk.Shown.{decorations-All, Shown}

-- No line break stands from one position up to another.
abbrev pub Unbroken : Document → ℕ → ℕ → Type 0
Unbroken d from to = (i : ℕ) → from ≤ i → i < to → d.is_break i ≡ false

abbrev pub Keeps : Document → Decoration → Type 0
Keeps d (hidden r) = Unbroken d r.from r.to
Keeps d (widget w from to) = Unbroken d from to
Keeps d (mark c from to) = Unit {0}
Keeps d (line_class c pos) = Unit {0}

abbrev pub Within : Document → ℕ → Type 0
Within d i = i ≤ d.length

abbrev pub OneLine : Document → Node → Type 0
OneLine d n = Unbroken d n.from n.to

-- A node with its marks lies within the document, and stands on one line where it is an image or the
-- mark of a list item.
abbrev pub IsPlaced : Document → Node → Type 0
IsPlaced d n = Hides (Within d) n × Replaces (OneLine d) n.name n

Covered-Keeps :
    (d : Document) (rs : List Range)
    → ((i : ℕ) → Covered i rs → d.is_break i ≡ false)
    → All (Keeps d) (map hidden rs)
Covered-Keeps d [] h = tt
Covered-Keeps d (r ∷ rs) h =
    (λ i from to. h i (inl (from, to)), Covered-Keeps d rs (λ i c. h i (inr c)))

module _ (d : Document) (law : IsDocument d) (active : List Range) where
  Keeps-Rules : Rules d active (Keeps d) (Within d) (OneLine d)
  Keeps-Rules = record {
    on_line = λ c pos. tt;
    on_mark = λ c from to. tt;
    on_hide = λ from to within.
        Covered-Keeps d (hide d active from to) (hide-unbroken d law active to within from);
    on_widget = λ x n unbroken idle. unbroken;
    on_min = λ a b h. omega arith;
  }

  -- In a document that is made of its lines, whatever nodes are entered and in whatever order: where
  -- the nodes and their marks lie within the document, and the images and the marks of list items
  -- stand on one line, nothing that is hidden or replaced by a widget covers a line break.
  pub decorations-Keeps :
      (ns : List Node) → All (IsPlaced d) ns → Shown (Keeps d) (decorations d active ns)
  decorations-Keeps ns h =
      decorations-All d active (Keeps d) (IsPlaced d)
        (λ n placed. enter-Entry Keeps-Rules n placed.0 placed.1) ns h
