-- ===== src/Editor/Preview/Blocks/Exposed.antt =====
-- A diagram is rendered, or its whole source is there to be edited.
use mathlib.Core.List.{append-nil}
use oxidt_kit.Kit.{
  ℕ, suc, ◌≤◌, ◌<◌, ◌≡◌, sym, ◌∙◌, ap, leb, Bool, true, false, Bool-cases, inl, inr, Text, none,
  some, List, [], ◌∷◌, map, All, arith,
}
use oxidt_kit.Editor.Document.{Line, Document, IsDocument, Range, fenced_code}
use oxidt_kit.Editor.Preview.Ranges.{editing, active_lines, line_starts}
use oxidt_kit.Editor.Preview.Nodes.{Node, line_class, code_line, diagram_source, enter, entered}
use oxidt_kit.Editor.Preview.Hide.{line-after}
use oxidt_kit.Editor.Preview.Blocks.{
  Row, Block, BlockWidget, diagram, block_start, block_end, last_position, block_of, enter_block,
}

pub enter_block-block_of :
    (d : Document) (active : List Range) (n : Node) (rows : List Row) (b : Block)
    → enter_block d active n rows ≡ some b
    → (b.from ≡ block_start d n) × (b.to ≡ block_end d n) × (editing active b.from b.to ≡ false)
unfolding enter_block
enter_block-block_of d active n rows b e = ground arith

module _ (d : Document) (law : IsDocument d) where
  line-from : (i : ℕ) → i ≤ d.length → (d.line_at i).from ≡ (d.line_at (d.line_at i).from).from
  line-from i h =
      ap (λ (l : Line). l.from)
        (sym (
          law.same_line i (d.line_at i).from h (omega arith)
            (omega (arith, law.from-le i h, law.le-to i h))))

  line-to : (i : ℕ) → i ≤ d.length → (d.line_at i).to ≡ (d.line_at (d.line_at i).to).to
  line-to i h =
      ap (λ (l : Line). l.to)
        (sym (
          law.same_line i (d.line_at i).to h (omega (arith, law.from-le i h, law.le-to i h))
            (omega arith)))

  pub last_position-bounds :
      (n : Node) → (last_position d n ≤ n.to) × (n.to ≤ suc (last_position d n))
  last_position-bounds n = ground arith

  -- A block for a node of the document stands on whole lines, none of them active, and has the
  -- node on them, all but a line break that may end it.
  pub enter_block-whole :
      (active : List Range) (n : Node) (rows : List Row) (b : Block)
      → n.from ≤ d.length
      → n.to ≤ d.length
      → enter_block d active n rows ≡ some b
      → (b.from ≡ (d.line_at b.from).from)
        × (b.to ≡ (d.line_at b.to).to)
        × (b.from ≤ n.from)
        × (n.to ≤ suc b.to)
        × (editing active b.from b.to ≡ false)
  enter_block-whole active n rows b hf ht e =
      let w = enter_block-block_of d active n rows b e in
      let k = last_position-bounds n in
      let last_in : last_position d n ≤ d.length = omega (arith, k.0) in
      (
        rw w.0 (line-from n.from hf),
        rw w.1 (line-to (last_position d n) last_in),
        rw w.0 (law.from-le n.from hf),
        rw w.1 (omega (arith, k.1, law.le-to (last_position d n) last_in)),
        w.2,
      )

  -- Lines of the selection meet a position's line only around the position.
  end-after :
      (from i : ℕ)
      → from ≤ d.length
      → i ≤ d.length
      → (d.line_at from).from ≤ (d.line_at i).to
      → from ≤ (d.line_at i).to
  end-after from i hf hi meets = elim (Bool-cases (leb from (d.line_at i).to)) [
    | inl fine ↦ ground arith
    | inr beyond ↦
        absurd
          (omega (arith, line-after d law [] d.length (omega arith) i from hi hf (ground arith)))
  ]

  start-before :
      (to i : ℕ)
      → to ≤ d.length
      → i ≤ d.length
      → (d.line_at i).from ≤ (d.line_at to).to
      → (d.line_at i).from ≤ to
  start-before to i ht hi meets = elim (Bool-cases (leb (d.line_at i).from to)) [
    | inl fine ↦ ground arith
    | inr beyond ↦ absurd (
        omega (arith, law.from-le to ht, ap (λ (l : Line). l.from) (same beyond), ground_lt beyond))
  ]
    where
      ground_lt : leb (d.line_at i).from to ≡ false → to < (d.line_at i).from
      ground_lt o = ground arith

      same : leb (d.line_at i).from to ≡ false → d.line_at i ≡ d.line_at to
      same o =
          sym (
            law.same_line i (d.line_at i).from hi (omega arith)
              (omega (arith, law.from-le i hi, law.le-to i hi)))
          ∙ law.same_line to (d.line_at i).from ht (omega (arith, law.from-le to ht, ground_lt o))
              meets

  editing-lines :
      (selection : List Range) (from to : ℕ)
      → All (λ r. (r.from ≤ d.length) × (r.to ≤ d.length)) selection
      → from ≤ d.length
      → to ≤ d.length
      → editing (active_lines d selection true) (d.line_at from).from (d.line_at to).to ≡ true
      → editing (active_lines d selection true) from to ≡ true
  unfolding active_lines
  editing-lines [] from to inside hf ht e = e
  editing-lines (r ∷ rs) from to inside hf ht e = ground (
    arith,
    end-after from r.to hf,
    start-before to r.from ht,
    editing-lines rs from to inside.1 hf ht,
  )

  editing_mono :
      (active : List Range) (from to' to : ℕ)
      → to' ≤ to
      → editing active from to' ≡ true
      → editing active from to ≡ true
  editing_mono [] from to' to le e = e
  editing_mono (r ∷ rs) from to' to le e = ground (arith, editing_mono rs from to' to le)

  -- A fence that is edited is edited by its lines, with the line break that may end it or without.
  editing-block :
      (selection : List Range) (focused : Bool) (n : Node)
      → All (λ r. (r.from ≤ d.length) × (r.to ≤ d.length)) selection
      → n.from ≤ d.length
      → n.to ≤ d.length
      → editing (active_lines d selection focused) (block_start d n) (block_end d n) ≡ true
      → editing (active_lines d selection focused) n.from n.to ≡ true
  editing-block selection false n inside hf ht e = unfold active_lines in cc
  editing-block selection true n inside hf ht e =
      editing_mono _ n.from (last_position d n) n.to last-le
        (editing-lines selection n.from (last_position d n) inside hf (omega (arith, last-le)) e)
    where
      last-le : last_position d n ≤ n.to
      last-le = ground arith

  editing-of-none :
      (active : List Range) (n : Node) (w : BlockWidget)
      → block_of d active n w ≡ none
      → editing active (block_start d n) (block_end d n) ≡ true
  editing-of-none active n w e = ground arith

  -- When a diagram's block is not rendered, because one of its lines is edited, the fence gets the
  -- class of its lines and nothing of it is hidden: all its source is there.
  pub diagram_exposed :
      (selection : List Range) (focused : Bool) (n : Node) (rows : List Row) (source : Text)
      → All (λ r. (r.from ≤ d.length) × (r.to ≤ d.length)) selection
      → n.from ≤ d.length
      → n.to ≤ d.length
      → n.name ≡ fenced_code
      → diagram_source d n.children ≡ some source
      → enter_block d (active_lines d selection focused) n rows ≡ none
      → enter d (active_lines d selection focused) n
        ≡ some (record {
          decorations = map (line_class code_line) (line_starts d n.from n.to);
          descends = false;
        })
  unfolding enter_block enter
  diagram_exposed selection focused n rows source inside hf ht fence drawn hidden =
      rw (fence, drawn, edited) (ap (λ ds. some (entered d active ds false)) (append-nil _))
    where
      active : List Range
      active = active_lines d selection focused

      edited : editing (active_lines d selection focused) n.from n.to ≡ true
      edited = editing-block selection focused n inside hf ht (
          editing-of-none (active_lines d selection focused) n (diagram source)
            (rw (fence, drawn) at hidden))
