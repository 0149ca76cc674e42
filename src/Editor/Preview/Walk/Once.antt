-- ===== src/Editor/Preview/Walk/Once.antt =====
-- A node that several ranges meet is decorated once.
use mathlib.Core.List.{append_assoc, append-nil}
use oxidt_kit.Kit.{
  ℕ, ◌≡◌, refl, ap, sym, ◌∙◌, true, false, Bool-cases, inl, inr, Option, none, some, List, [], ◌∷◌,
  ◌++◌,
}
use oxidt_kit.Editor.Document.{Document, Range}
use oxidt_kit.Editor.Preview.Nodes.{
  Node, Class, Decoration, mark, hidden, widget, line_class, Entered, enter,
}
use oxidt_kit.Editor.Preview.Walk.{
  NodeId, has_id, add_class, Walk, put, put_all, put_entered, visit, visits, empty_walk, parts,
  decorations,
}

-- The nodes without those that have the name and the start of an earlier one.
abbrev pub once : List NodeId → List Node → List Node
once seen [] = []
once seen (n ∷ ns) = elim (has_id n.name n.from seen) [
  | true ↦ once seen ns
  | false ↦ n ∷ once ((n.name, n.from) ∷ seen) ns
]

-- The decorations of all nodes, one after the other; `none` where one of them throws.
abbrev pub before : Option Entered → Option (List Decoration) → Option (List Decoration)
before none rest = none
before (some e) none = none
before (some e) (some ds) = some (e.decorations ++ ds)

abbrev pub others : List Decoration → List Decoration
others [] = []
others (line_class c pos ∷ ds) = others ds
others (d ∷ ds) = d ∷ others ds

abbrev pub classes_of : List Decoration → List (ℕ × List Class) → List (ℕ × List Class)
classes_of [] m = m
classes_of (line_class c pos ∷ ds) m = classes_of ds (add_class c pos m)
classes_of (d ∷ ds) m = classes_of ds m

-- The classes of lines apart from all else.
abbrev pub sorted :
    List Decoration
    → List (ℕ × List Class)
    → Option (List Decoration)
    → Option (List Decoration × List (ℕ × List Class))
sorted ds m none = none
sorted ds m (some es) = some (ds ++ others es, classes_of es m)

moved :
    (x : Decoration) (ds : List Decoration) (w : Walk)
    → put_all ds (record w { result = w.result ++ x ∷ [] }) ≡ record w {
      result = (w.result ++ x ∷ []) ++ others ds;
      line_classes = classes_of ds w.line_classes;
    }
    → put_all ds (record w { result = w.result ++ x ∷ [] })
      ≡ record w { result = w.result ++ x ∷ others ds; line_classes = classes_of ds w.line_classes }
moved x ds w h =
    h
    ∙ ap (λ r. record w { result = r; line_classes = classes_of ds w.line_classes })
        (append_assoc w.result (x ∷ []) (others ds))

pub put_all_lem :
    (ds : List Decoration) (w : Walk)
    → put_all ds w
      ≡ record w { result = w.result ++ others ds; line_classes = classes_of ds w.line_classes }
unfolding put_all put
put_all_lem [] w = ap (λ r. record w { result = r }) (sym (append-nil w.result))
put_all_lem (line_class c pos ∷ ds) w = put_all_lem ds _
put_all_lem (mark c from to ∷ ds) w = moved (mark c from to) ds w (put_all_lem ds _)
put_all_lem (hidden r ∷ ds) w = moved (hidden r) ds w (put_all_lem ds _)
put_all_lem (widget x from to ∷ ds) w = moved (widget x from to) ds w (put_all_lem ds _)

others-append : (ds es : List Decoration) → others (ds ++ es) ≡ others ds ++ others es
others-append [] es = refl
others-append (line_class c pos ∷ ds) es = others-append ds es
others-append (mark c from to ∷ ds) es = ap (λ r. mark c from to ∷ r) (others-append ds es)
others-append (hidden r ∷ ds) es = ap (λ x. hidden r ∷ x) (others-append ds es)
others-append (widget x from to ∷ ds) es = ap (λ r. widget x from to ∷ r) (others-append ds es)

classes_of-append :
    (ds es : List Decoration) (m : List (ℕ × List Class))
    → classes_of es (classes_of ds m) ≡ classes_of (ds ++ es) m
classes_of-append [] es m = refl
classes_of-append (line_class c pos ∷ ds) es m = classes_of-append ds es (add_class c pos m)
classes_of-append (mark c from to ∷ ds) es m = classes_of-append ds es m
classes_of-append (hidden r ∷ ds) es m = classes_of-append ds es m
classes_of-append (widget x from to ∷ ds) es m = classes_of-append ds es m

sorted-before :
    (e : Entered) (r : List Decoration) (m : List (ℕ × List Class)) (o : Option (List Decoration))
    → sorted (r ++ others e.decorations) (classes_of e.decorations m) o
      ≡ sorted r m (before (some e) o)
sorted-before e r m none = refl
sorted-before e r m (some fs) =
    let results =
      append_assoc r (others e.decorations) (others fs)
      ∙ ap (λ x. r ++ x) (sym (others-append e.decorations fs)) in
    ap (λ x. some (x, classes_of fs (classes_of e.decorations m))) results
    ∙ ap (λ x. some (r ++ others (e.decorations ++ fs), x)) (classes_of-append e.decorations fs m)

module _ (d : Document) (active : List Range) where
  abbrev pub entered_all : List Node → Option (List Decoration)
  entered_all [] = some []
  entered_all (n ∷ ns) = before (enter d active n) (entered_all ns)

  abbrev AsOnce : List Node → Walk → Type 0
  AsOnce ns w =
      parts (visits d active ns w)
      ≡ sorted w.result w.line_classes (entered_all (once w.visited ns))

  entered-AsOnce :
      (o : Option Entered) (ns : List Node) (w : Walk)
      → ((x : Walk) → AsOnce ns x)
      → parts
          (elim (put_entered d active o w) [ none ↦ none | some step ↦ visits d active ns step.0 ])
        ≡ sorted w.result w.line_classes (before o (entered_all (once w.visited ns)))
  entered-AsOnce none ns w h = refl
  entered-AsOnce (some e) ns w h =
      h (put_all e.decorations w)
      ∙ ap (λ (x : Walk). sorted x.result x.line_classes (entered_all (once x.visited ns)))
          (put_all_lem e.decorations w)
      ∙ sorted-before e w.result w.line_classes (entered_all (once w.visited ns))

  visits-AsOnce : (ns : List Node) (w : Walk) → AsOnce ns w
  unfolding visits
  visits-AsOnce [] w =
      ap {B = Option (List Decoration × List (ℕ × List Class))} (λ r. some (r, w.line_classes))
        (sym (append-nil w.result))
  visits-AsOnce (n ∷ ns) w = elim (Bool-cases (has_id n.name n.from w.visited)) [
    | inl seen ↦ rw (visit, seen, parts, once) (visits-AsOnce ns w)
    | inr new ↦
        rw (visit, new, parts, once)
          (entered-AsOnce (enter d active n) ns
            (record w { visited = (n.name, n.from) ∷ w.visited }) (visits-AsOnce ns))
  ]

  -- The nodes are decorated as if each of them were entered once, however often the ranges meet it:
  -- the decorations are those that the nodes of different names or starts give, one after the other,
  -- with the classes of lines in the map, and they throw just when one of these nodes does.
  pub decorations-once :
      (ns : List Node) → decorations d active ns ≡ sorted [] [] (entered_all (once [] ns))
  unfolding decorations
  decorations-once ns = visits-AsOnce ns empty_walk
