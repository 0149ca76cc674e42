-- ===== src/Editor/Preview/Hide.antt =====
-- What `hide` hides.
use oxidt_kit.Kit.{
  ℕ, zero, suc, ◌-◌, ◌≤◌, ◌<◌, ◌≡◌, sym, ◌∙◌, ap, min, leb, true, false, Bool-cases, ◌⊎◌, inl, inr,
  ◌↔◌, List, [], ◌∷◌, arith,
}
use Prim.Native.Nat.{max}
use oxidt_kit.Editor.Document.{Line, Document, IsDocument, Range}
use oxidt_kit.Editor.Preview.Ranges.{editing, hide_from, hide}

abbrev pub Covered : ℕ → List Range → Type 0
Covered i [] = ⊥
Covered i (r ∷ rs) = ((r.from ≤ i) × (i < r.to)) ⊎ Covered i rs

-- A position within `from` and `to` at which a character of a line stands, no line break, where the
-- line's part between `from` and `to` is not being edited.
abbrev pub Inactive : Document → List Range → ℕ → ℕ → ℕ → Type 0
Inactive d active from to i =
    (from ≤ i)
    × (i < to)
    × (i < (d.line_at i).to)
    × (editing active (max from (d.line_at i).from) (min (d.line_at i).to to) ≡ false)

module _ (d : Document) (law : IsDocument d) (active : List Range) (to : ℕ)
    (within : to ≤ d.length) where
  -- Positions behind a line's end are on later lines.
  pub line-after :
      (pos i : ℕ)
      → pos ≤ d.length
      → i ≤ d.length
      → suc (d.line_at pos).to ≤ i
      → suc (d.line_at pos).to ≤ (d.line_at i).from
  line-after pos i hp hi after = elim (Bool-cases (leb (d.line_at i).from (d.line_at pos).to)) [
    | inl overlaps ↦
        absurd (omega (arith, law.le-to i hi, ap (λ (l : Line). l.to) (same overlaps), after))
    | inr apart ↦ ground arith
  ]
    where
      same : leb (d.line_at i).from (d.line_at pos).to ≡ true → d.line_at i ≡ d.line_at pos
      same o =
          sym (law.same_line i (d.line_at pos).to hi (ground arith) (omega (arith, law.le-to i hi)))
          ∙ law.same_line pos (d.line_at pos).to hp
              (omega (arith, law.from-le pos hp, law.le-to pos hp)) (omega arith)

  -- A position on the line of `pos`, from there on.
  on-line :
      (pos i : ℕ) → pos ≤ d.length → pos ≤ i → i ≤ (d.line_at pos).to → d.line_at i ≡ d.line_at pos
  on-line pos i hp le up = law.same_line pos i hp (omega (arith, law.from-le pos hp)) up

  head-Inactive :
      (pos i : ℕ)
      → pos < to
      → pos ≤ i
      → i < min (d.line_at pos).to to
      → editing active pos (min (d.line_at pos).to to) ≡ false
      → Inactive d active pos to i
  head-Inactive pos i lt le up idle =
      rw (on-line pos i (omega arith) le (omega arith), start) (le, omega arith, omega arith, idle)
    where
      start : max pos (d.line_at pos).from ≡ pos
      start = omega (arith, law.from-le pos (omega arith))

  later-start :
      (pos i : ℕ)
      → pos < to
      → suc (d.line_at pos).to ≤ i
      → i < to
      → max pos (d.line_at i).from ≡ max (suc (d.line_at pos).to) (d.line_at i).from
  later-start pos i lt after up =
      omega (arith, line-after pos i (omega arith) (omega arith) after, law.le-to pos (omega arith))

  tail-Inactive :
      (pos i : ℕ)
      → pos < to
      → Inactive d active (suc (d.line_at pos).to) to i
      → Inactive d active pos to i
  tail-Inactive pos i lt h =
      (omega (arith, law.le-to pos (omega arith)), h.1, h.2, rw (later-start pos i lt h.0 h.1) h.3)

  hide_from_sound :
      (fuel pos i : ℕ) → Covered i (hide_from d active fuel pos to) → Inactive d active pos to i
  unfolding hide_from
  hide_from_sound zero pos i c = absurd c
  hide_from_sound (suc fuel) pos i c = ground (
    arith,
    head-Inactive pos i,
    tail-Inactive pos i,
    hide_from_sound fuel (suc (d.line_at pos).to) i,
  )

  on-line-Inactive :
      (pos i : ℕ)
      → i ≤ (d.line_at pos).to
      → Inactive d active pos to i
      → (i < min (d.line_at pos).to to) × (editing active pos (min (d.line_at pos).to to) ≡ false)
  on-line-Inactive pos i up h = (omega (arith, rw same at h.2), rw start at (rw same at h.3))
    where
      same : d.line_at i ≡ d.line_at pos
      same = on-line pos i (omega arith) h.0 up

      start : max pos (d.line_at pos).from ≡ pos
      start = omega (arith, law.from-le pos (omega arith))

  off-line-Inactive :
      (pos i : ℕ)
      → suc (d.line_at pos).to ≤ i
      → Inactive d active pos to i
      → Inactive d active (suc (d.line_at pos).to) to i
  off-line-Inactive pos i after h =
      (after, h.1, h.2, rw (← later-start pos i (omega arith) after h.1) h.3)

  hide_from_complete :
      (fuel pos i : ℕ)
      → to - pos < fuel
      → Inactive d active pos to i
      → Covered i (hide_from d active fuel pos to)
  unfolding hide_from
  hide_from_complete zero pos i enough h = absurd (omega arith)
  hide_from_complete (suc fuel) pos i enough h = elim (Bool-cases (leb i (d.line_at pos).to)) [
    | inl up ↦ ground (arith, on-line-Inactive pos i (ground arith) h)
    | inr after ↦ ground (
      arith,
      law.le-to pos (omega arith),
      hide_from_complete fuel (suc (d.line_at pos).to) i
          (omega (arith, law.le-to pos (omega arith))) (off-line-Inactive pos i (ground arith) h),
    )
  ]

  -- `hide` hides a position just when it holds a character, not a line break, of a line whose part
  -- between the ends is not being edited. So syntax that spans lines is hidden line by line.
  pub hide-Covered : (from i : ℕ) → Covered i (hide d active from to) ↔ Inactive d active from to i
  unfolding hide
  hide-Covered from i = (
    hide_from_sound (suc (to - from)) from i,
    hide_from_complete (suc (to - from)) from i (omega arith),
  )

  -- No line break is hidden, which a view plugin could not do.
  pub hide-unbroken : (from i : ℕ) → Covered i (hide d active from to) → d.is_break i ≡ false
  hide-unbroken from i c =
      let h = (hide-Covered from i).0 c in
      law.unbroken i i (omega arith) (law.from-le i (omega arith)) h.2
