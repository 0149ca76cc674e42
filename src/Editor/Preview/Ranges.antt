-- ===== src/Editor/Preview/Ranges.antt =====
-- `activeLines`, and the helpers of `decorations`: `editing`, `hide` and `lines`.
use oxidt_kit.Kit.{
  ℕ, zero, suc, ◌-◌, min, ltb, leb, not, ◌&&◌, ◌||◌, Bool, true, false, List, [], ◌∷◌, map,
  if◌then◌else◌,
}
use oxidt_kit.Editor.Document.{Document, Range}

-- The lines that the selection touches, while the editor has the focus.
unfoldable pub active_lines : Document → List Range → Bool → List Range
active_lines d selection true =
    map (λ r. record { from = (d.line_at r.from).from; to = (d.line_at r.to).to }) selection
active_lines d selection false = []

-- `editing`: whether the range meets an active line.
abbrev pub editing : List Range → ℕ → ℕ → Bool
editing [] from to = false
editing (r ∷ active) from to = (leb from r.to && leb r.from to) || editing active from to

-- The loop of `hide`, from `pos` on. Each round ends a line, so `to - pos` rounds are enough.
unfoldable pub hide_from : Document → List Range → ℕ → ℕ → ℕ → List Range
hide_from d active zero pos to = []
hide_from d active (suc fuel) pos to =
    let line = d.line_at pos in
    let end = min line.to to in
    let rest = hide_from d active fuel (suc line.to) to in
    if not (ltb pos to)
    then []
    else if ltb pos end && not (editing active pos end)
    then record { from = pos; to = end } ∷ rest
    else rest

unfoldable pub hide : Document → List Range → ℕ → ℕ → List Range
unfolding hide_from
hide d active from to = hide_from d active (suc (to - from)) from to

-- The loop of `lines`: the starts of the lines that get a class.
unfoldable pub starts_from : Document → ℕ → ℕ → ℕ → List ℕ
starts_from d zero pos to = []
starts_from d (suc fuel) pos to =
    let rest = starts_from d fuel (suc (d.line_at pos).to) to in
    if leb pos to then pos ∷ rest else []

unfoldable pub line_starts : Document → ℕ → ℕ → List ℕ
unfolding starts_from
line_starts d from to = starts_from d (suc (suc to)) (d.line_at from).from to
