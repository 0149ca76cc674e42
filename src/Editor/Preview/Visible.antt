-- ===== src/Editor/Preview/Visible.antt =====
-- Syntax stays visible where it is edited.
use oxidt_kit.Kit.{ℕ, zero, suc, ◌-◌, ◌≡◌, false, List, [], ◌∷◌, map, All, arith}
use oxidt_kit.Editor.Document.{Document, Range, Name, image, list_mark}
use oxidt_kit.Editor.Preview.Ranges.{editing, hide_from, hide}
use oxidt_kit.Editor.Preview.Nodes.{
  Child, Node, Decoration, mark, hidden, widget, line_class, hide_range, enter,
}
use oxidt_kit.Editor.Preview.Every.{Entry, Rules, Replaces, enter-Entry}
use oxidt_kit.Editor.Preview.Walk.{decorations}
use oxidt_kit.Editor.Preview.Walk.Shown.{decorations-All, Shown}

-- What a decoration replaces meets no active line.
abbrev pub Spares : List Range → Decoration → Type 0
Spares active (hidden r) = editing active r.from r.to ≡ false
Spares active (widget w from to) = editing active from to ≡ false
Spares active (mark c from to) = Unit {0}
Spares active (line_class c pos) = Unit {0}

-- Of the nodes nothing is asked.
abbrev AnyEnd : ℕ → Type 0
AnyEnd i = Unit {0}

abbrev AnyNode : Node → Type 0
AnyNode n = Unit {0}

any-Hides : (cs : List Child) → All (λ (c : Child). AnyEnd c.to) cs
any-Hides [] = tt
any-Hides (c ∷ cs) = (tt, any-Hides cs)

any-Replaces : (name : Name) (n : Node) → Replaces AnyNode name n
any-Replaces image n = tt
any-Replaces list_mark n = tt
any-Replaces _ n = tt

module _ (d : Document) (active : List Range) where
  hide_from-Spares :
      (fuel pos to : ℕ) → All (Spares active) (map hidden (hide_from d active fuel pos to))
  unfolding hide_from
  hide_from-Spares zero pos to = tt
  hide_from-Spares (suc fuel) pos to =
      ground (arith, hide_from-Spares fuel (suc (d.line_at pos).to) to)

  hide_range-Spares : (from to : ℕ) → All (Spares active) (hide_range d active from to)
  unfolding hide
  hide_range-Spares from to = hide_from-Spares (suc (to - from)) from to

  Spares-Rules : Rules d active (Spares active) AnyEnd AnyNode
  Spares-Rules = record {
    on_line = λ c pos. tt;
    on_mark = λ c from to. tt;
    on_hide = λ from to h. hide_range-Spares from to;
    on_widget = λ x n r e. e;
    on_min = λ a b h. tt;
  }

  enter-Spares : (n : Node) → Entry (Spares active) (enter d active n)
  enter-Spares n = enter-Entry Spares-Rules n (tt, tt, any-Hides n.children) (any-Replaces n.name n)

  -- Whatever nodes are entered and in whatever order, what is hidden or replaced by a widget meets
  -- no active line.
  pub decorations-Spares : (ns : List Node) → Shown (Spares active) (decorations d active ns)
  decorations-Spares ns =
      decorations-All d active (Spares active) AnyNode (λ n h. enter-Spares n) ns (any-NodesAll ns)
    where
      any-NodesAll : (ms : List Node) → All AnyNode ms
      any-NodesAll [] = tt
      any-NodesAll (m ∷ ms) = (tt, any-NodesAll ms)
