-- ===== src/Editor/Preview/Cache/Current.antt =====
-- What is kept is what would be computed.
use oxidt_kit.Kit.{
  ◌≡◌, refl, ap, sym, ◌∙◌, not, ◌||◌, Bool, true, false, List, if◌then◌else◌, arith,
}
use oxidt_kit.Editor.Preview.Cache.{
  Content, Change, IsChange, differ, Effect, focus_update, ViewUpdate, IsViewUpdate, block_update,
  transact, live_update,
}

split-or : (a b : Bool) → (a || b) ≡ false → (a ≡ false) × (b ≡ false)
split-or true b e = absurd (ground arith)
split-or false b e = (refl, e)

not-false : (a : Bool) → not a ≡ false → a ≡ true
not-false true e = refl
not-false false e = absurd (ground arith)

same-of-differ : (a b : Bool) → differ a b ≡ false → a ≡ b
same-of-differ true true e = refl
same-of-differ true false e = absurd (ground arith)
same-of-differ false b e = sym e

if-current : {D : Type 0} (b : Bool) (x y : D) → (b ≡ false → y ≡ x) → (if b then x else y) ≡ x
if-current true x y h = refl
if-current false x y h = h refl

module _ {Doc Selection Tree : Type 0} where
  same-content :
      (a b : Content Doc Selection Tree)
      → a.doc ≡ b.doc
      → a.selection ≡ b.selection
      → a.tree ≡ b.tree
      → a ≡ b
  same-content a b d s t =
      ap (λ x. record a { doc = x }) d
      ∙ ap (λ x. record a { doc = b.doc; selection = x }) s
      ∙ ap (λ x. record b { tree = x }) t

  -- A change that says that nothing has changed.
  quiet :
      (t : Change Doc Selection Tree)
      → IsChange t
      → t.doc_changed ≡ false
      → t.selection_set ≡ false
      → not t.same_tree ≡ false
      → t.next ≡ t.start
  quiet t law d s e =
      same-content t.next t.start (law.doc d) (law.selection d s)
        (law.tree (not-false t.same_tree e))

module _ {Doc Selection Tree D : Type 0} where
  -- The diagrams and tables that `blockPreview` keeps are those that `blocks` would give: where they
  -- are so before a transaction, for the focus that `focusState` has, they are so after it for the
  -- focus that it then has, whatever the effects of the transaction, if it says what has changed.
  pub transact-current :
      (blocks : Content Doc Selection Tree → Bool → D) (t : Change Doc Selection Tree)
      (effects : List Effect) (fields : Bool × D)
      → IsChange t
      → fields.1 ≡ blocks t.start fields.0
      → (transact blocks t effects fields).1 ≡ blocks t.next (transact blocks t effects fields).0
  unfolding transact block_update
  transact-current blocks t effects fields law h =
      let was = fields.0 in
      let focused = focus_update effects was in
      if-current (t.doc_changed || (t.selection_set || (differ focused was || not t.same_tree)))
        (blocks t.next focused) fields.1
        (λ idle.
          let (d, more) = split-or t.doc_changed _ idle in
          let (s, most) = split-or t.selection_set _ more in
          let (f, n) = split-or (differ focused was) _ most in
          h
          ∙ ap (blocks t.start) (sym (same-of-differ focused was f))
          ∙ ap (λ c. blocks c focused) (sym (quiet t law d s n)))

module _ {Doc Selection Tree Ranges D : Type 0} where
  -- The decorations that `livePreview` keeps are those that `decorations` would give: where they
  -- are so before an update of the view, they are so after it, for its document, selection, tree,
  -- focus and visible ranges, if the update says what has changed.
  pub live_update-current :
      (decorate : Content Doc Selection Tree → Bool → Ranges → D)
      (u : ViewUpdate Doc Selection Tree Ranges) (value : D)
      → IsViewUpdate u
      → value ≡ decorate u.change.start u.had_focus u.were_visible
      → live_update decorate u value ≡ decorate u.change.next u.has_focus u.visible_ranges
  unfolding live_update
  live_update-current decorate u value law h =
      let t = u.change in
      let rest = u.viewport_changed || (u.focus_changed || not t.same_tree) in
      if-current (t.doc_changed || (t.selection_set || rest))
        (decorate t.next u.has_focus u.visible_ranges) value
        (λ idle.
          let (d, more) = split-or t.doc_changed _ idle in
          let (s, most) = split-or t.selection_set _ more in
          let (v, last) = split-or u.viewport_changed _ most in
          let (f, n) = split-or u.focus_changed _ last in
          h
          ∙ ap (λ c. decorate c u.had_focus u.were_visible) (sym (quiet t law.change d s n))
          ∙ ap (λ b. decorate t.next b u.were_visible) (sym (law.focus f))
          ∙ ap (λ r. decorate t.next u.has_focus r) (sym (law.viewport v)))
