-- ===== src/Editor/Preview/Walk/Shown.antt =====
-- What holds of the decorations of each node holds of the whole.
use oxidt_kit.Kit.{
  ℕ, sym, subst, Bool-cases, inl, inr, Option, none, some, List, [], ◌∷◌, All, All-append,
}
use oxidt_kit.Editor.Document.{Document, Range}
use oxidt_kit.Editor.Preview.Nodes.{
  Node, Class, Decoration, mark, hidden, widget, line_class, Entered, enter,
}
use oxidt_kit.Editor.Preview.Every.{Entry}
use oxidt_kit.Editor.Preview.Walk.{NodeId, has_id, decorations}
use oxidt_kit.Editor.Preview.Walk.Once.{once, before, others, sorted, entered_all, decorations-once}

-- What holds of all that the nodes give holds of the result.
abbrev pub Shown :
    (P : Decoration → Type 0) → Option (List Decoration × List (ℕ × List Class)) → Type 0
Shown P none = Unit {0}
Shown P (some r) = All P r.0

abbrev OptionAll : (P : Decoration → Type 0) → Option (List Decoration) → Type 0
OptionAll P none = Unit {0}
OptionAll P (some ds) = All P ds

module _ (d : Document) (active : List Range) (P : Decoration → Type 0) (N : Node → Type 0)
    (each : (n : Node) → N n → Entry P (enter d active n)) where
  others-All : (ds : List Decoration) → All P ds → All P (others ds)
  others-All [] h = tt
  others-All (line_class c pos ∷ ds) h = others-All ds h.1
  others-All (mark c from to ∷ ds) h = (h.0, others-All ds h.1)
  others-All (hidden r ∷ ds) h = (h.0, others-All ds h.1)
  others-All (widget x from to ∷ ds) h = (h.0, others-All ds h.1)

  before-All :
      (e : Option Entered) (o : Option (List Decoration))
      → Entry P e
      → OptionAll P o
      → OptionAll P (before e o)
  before-All none o h g = tt
  before-All (some e) none h g = tt
  before-All (some e) (some ds) h g = All-append P e.decorations ds h g

  entered-All :
      (seen : List NodeId) (ns : List Node)
      → All N ns
      → OptionAll P (entered_all d active (once seen ns))
  entered-All seen [] h = tt
  entered-All seen (n ∷ ns) h = elim (Bool-cases (has_id n.name n.from seen)) [
    | inl old ↦ rw (once, old) (entered-All seen ns h.1)
    | inr new ↦
        rw (once, new)
          (before-All (enter d active n) (entered_all d active (once ((n.name, n.from) ∷ seen) ns))
            (each n h.0) (entered-All ((n.name, n.from) ∷ seen) ns h.1))
  ]

  sorted-Shown : (o : Option (List Decoration)) → OptionAll P o → Shown P (sorted [] [] o)
  sorted-Shown none h = tt
  sorted-Shown (some ds) h = others-All ds h

  pub decorations-All : (ns : List Node) → All N ns → Shown P (decorations d active ns)
  decorations-All ns h =
      subst (Shown P) (sym (decorations-once d active ns))
        (sorted-Shown (entered_all d active (once [] ns)) (entered-All [] ns h))
