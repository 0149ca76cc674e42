-- ===== src/Editor/Preview/Cache.antt =====
-- `livePreview`, `focusState` and `blockPreview`: the decorations are kept between updates and are
-- computed again when an update says that something has changed. What changed is CodeMirror's to
-- say, so an update is an argument with its flags, and `IsChange` and `IsViewUpdate` state what
-- CodeMirror documents of them.
pub mod Current
mod Examples
use oxidt_kit.Kit.{
  ◌≡◌, ◌≢◌, not, ◌||◌, Bool, true, false, Option, none, some, List, [], ◌∷◌, if◌then◌else◌,
}

-- What a state's decorations depend on.
pub record Content (Doc Selection Tree : Type 0) : Type 0 where
  pub doc : Doc
  pub selection : Selection
  pub tree : Tree  -- syntaxTree(state)

-- A transaction, or those of an update: the states before and after, `docChanged`, and whether a
-- selection is set. `same_tree` is the comparison of the trees' identities.
pub record Change (Doc Selection Tree : Type 0) : Type 0 where
  pub start : Content Doc Selection Tree
  pub next : Content Doc Selection Tree
  pub doc_changed : Bool
  pub selection_set : Bool
  pub same_tree : Bool

-- Without a change of the document, the document is the same, and so is the selection unless it is
-- set; trees that are identical are equal.
pub record IsChange {Doc Selection Tree : Type 0} (t : Change Doc Selection Tree) : Type 0 where
  pub doc : t.doc_changed ≡ false → t.next.doc ≡ t.start.doc
  pub selection :
      t.doc_changed ≡ false → t.selection_set ≡ false → t.next.selection ≡ t.start.selection
  pub tree : t.same_tree ≡ true → t.next.tree ≡ t.start.tree

-- `b !== a`.
abbrev pub differ : Bool → Bool → Bool
differ true b = not b
differ false b = b

-- An effect of a transaction; of the other effects nothing is read.
pub data Effect : Type 0 where
  set_focus : Bool → Effect
  other_effect : Effect

-- `focusState`'s `update`: the last `setFocus` counts.
unfoldable pub focus_update : List Effect → Bool → Bool
focus_update [] value = value
focus_update (set_focus b ∷ es) value = focus_update es b
focus_update (other_effect ∷ es) value = focus_update es value

-- A view's update, with `hasFocus` and `visibleRanges` before and after it.
pub record ViewUpdate (Doc Selection Tree Ranges : Type 0) : Type 0 where
  pub change : Change Doc Selection Tree
  pub had_focus : Bool
  pub has_focus : Bool
  pub focus_changed : Bool
  pub were_visible : Ranges
  pub visible_ranges : Ranges
  pub viewport_changed : Bool

pub record IsViewUpdate {Doc Selection Tree Ranges : Type 0}
    (u : ViewUpdate Doc Selection Tree Ranges) : Type 0 where
  pub change : IsChange u.change
  pub focus : u.focus_changed ≡ false → u.has_focus ≡ u.had_focus
  pub viewport : u.viewport_changed ≡ false → u.visible_ranges ≡ u.were_visible

module _ {Doc Selection Tree D : Type 0} where
  -- `blockPreview`'s `update`, for the values of `focusState` before and after.
  unfoldable pub block_update :
      (Content Doc Selection Tree → Bool → D) → Change Doc Selection Tree → Bool → Bool → D → D
  block_update blocks t was focused value =
      if t.doc_changed || (t.selection_set || (differ focused was || not t.same_tree))
      then blocks t.next focused
      else value

  -- A transaction on both fields.
  unfoldable pub transact :
      (Content Doc Selection Tree → Bool → D)
      → Change Doc Selection Tree
      → List Effect
      → Bool × D
      → Bool × D
  unfolding focus_update block_update
  transact blocks t effects fields =
      let focused = focus_update effects fields.0 in
      (focused, block_update blocks t fields.0 focused fields.1)

module _ {Doc Selection Tree Ranges D : Type 0} where
  -- `livePreview`'s `update`.
  unfoldable pub live_update :
      (Content Doc Selection Tree → Bool → Ranges → D)
      → ViewUpdate Doc Selection Tree Ranges
      → D
      → D
  live_update decorate u value =
      if u.change.doc_changed
        || (u.change.selection_set
            || (u.viewport_changed || (u.focus_changed || not u.change.same_tree)))
      then decorate u.change.next u.has_focus u.visible_ranges
      else value
