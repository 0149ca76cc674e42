-- ===== src/Editor/Preview/Walk.antt =====
-- `decorations`, the callback with its set of visited nodes, and the classes of lines. The order in
-- which the nodes are entered is the parser's; nodes of the names that are not told apart get no
-- decorations, so that they may share an id changes nothing.
pub mod Once
pub mod Again
pub mod Shown
pub mod Classes
use native.Mathlib.Decide.{ℕ_discrete}
use oxidt_kit.Kit.{
  ℕ, ◌==◌, ◌&&◌, ◌||◌, not, Bool, true, false, Option, none, some, List, [], ◌∷◌, ◌++◌,
  if◌then◌else◌,
}
use oxidt_kit.Editor.Document.{
  Document, Range, Name, image, inline_code, html_block, html_tag, fenced_code, code_block,
}
use oxidt_kit.Editor.Preview.Nodes.{
  Node, is_name, Class, Decoration, mark, hidden, widget, line_class, Entered, enter,
}

unfoldable pub Class-discrete : Discrete Class
Class-discrete = hlevel ℕ_discrete

abbrev pub is_class : Class → Class → Bool
is_class a b = elim (Class-discrete a b) [ yes _ ↦ true | no _ ↦ false ]

-- An id is the name and the start of a node.
abbrev pub NodeId : Type 0
NodeId = Name × ℕ

abbrev pub has_id : Name → ℕ → List NodeId → Bool
has_id name from [] = false
has_id name from (i ∷ ids) = (is_name i.0 name && i.1 == from) || has_id name from ids

-- `opaque.has(name)`.
abbrev pub is_opaque : Name → Bool
is_opaque image = true
is_opaque html_block = true
is_opaque html_tag = true
is_opaque inline_code = true
is_opaque fenced_code = true
is_opaque code_block = true
is_opaque _ = false

-- `classes.add(className)`: a set is in the order of insertion.
abbrev pub has_class : Class → List Class → Bool
has_class c [] = false
has_class c (a ∷ cs) = is_class a c || has_class c cs

unfoldable pub add_to : Class → List Class → List Class
add_to c cs = if has_class c cs then cs else cs ++ c ∷ []

-- The round of `lines`: the map of line classes, in the order of insertion.
unfoldable pub add_class : Class → ℕ → List (ℕ × List Class) → List (ℕ × List Class)
unfolding add_to
add_class c pos [] = (pos, c ∷ []) ∷ []
add_class c pos ((p, cs) ∷ rest) =
    let more = add_class c pos rest in if p == pos then (p, add_to c cs) ∷ rest else (p, cs) ∷ more

-- `visited`, `result` and `lineClasses`.
pub record Walk : Type 0 where
  pub visited : List NodeId
  pub result : List Decoration
  pub line_classes : List (ℕ × List Class)

-- A class for a line goes into the map, all else to the result.
unfoldable pub put : Decoration → Walk → Walk
unfolding add_class
put (line_class c pos) w = record w { line_classes = add_class c pos w.line_classes }
put d w = record w { result = w.result ++ d ∷ [] }

unfoldable pub put_all : List Decoration → Walk → Walk
unfolding put
put_all [] w = w
put_all (d ∷ ds) w = put_all ds (put d w)

abbrev pub empty_walk : Walk
empty_walk = record { visited = []; result = []; line_classes = [] }

-- What is handed to `Decoration.set`: the result, and the classes of each line as one decoration.
abbrev pub parts : Option Walk → Option (List Decoration × List (ℕ × List Class))
parts none = none
parts (some w) = some (w.result, w.line_classes)

module _ (d : Document) (active : List Range) where
  abbrev pub put_entered : Option Entered → Walk → Option (Walk × Bool)
  put_entered none w = none
  put_entered (some e) w = some (put_all e.decorations w, e.descends)

  -- The callback: the walk afterwards and whether the children are visited; `none` where it throws.
  unfoldable pub visit : Node → Walk → Option (Walk × Bool)
  unfolding put_all
  visit n w =
      if has_id n.name n.from w.visited
      then some (w, not (is_opaque n.name))
      else put_entered (enter d active n) (record w { visited = (n.name, n.from) ∷ w.visited })

  -- The callback on one node after the other, over all the ranges.
  unfoldable pub visits : List Node → Walk → Option Walk
  unfolding visit
  visits [] w = some w
  visits (n ∷ ns) w = elim (visit n w) [ none ↦ none | some step ↦ visits ns step.0 ]

  unfoldable pub decorations : List Node → Option (List Decoration × List (ℕ × List Class))
  unfolding visits
  decorations ns = parts (visits ns empty_walk)
