-- ===== src/Editor/Mount/Sync.antt =====
-- The textarea's value is the editor's document.
use oxidt_kit.Kit.{
  ℕ, suc, ◌-◌, ◌≤◌, ◌≡◌, refl, sym, subst, ltb, leb, not, ◌&&◌, ◌||◌, Bool, true, false, Bool-cases,
  ◌⊎◌, inl, inr, Text, nonempty, text_eq, text_eq_sound, Option, none, some, [], ◌∷◌, ◌++◌, length,
  take, if◌then◌else◌, arith,
}
use oxidt_kit.Editor.Mount.{
  Editor, drop, Transaction, replacing, pasting, new_doc, is_valid, is_refused, doc_changed,
  native_set, on_update, dispatch, finally, set_value, pasted, insert_at, write, rerender, followed,
  on_follow, reset, on_reset, lock, on_observed, mount,
}
use oxidt_kit.Editor.Mount.Texts.{
  IsClean, IsNormal, take-IsClean, drop-IsClean, append-IsClean, take-drop, drop-length,
  append_empty,
}

-- What the textarea and the document keep: normal newlines, and the same text, unless the timer of
-- a form's reset is still to run.
abbrev pub Synced : Editor → Type 0
Synced e =
    IsClean e.doc × IsClean e.value × (e.notifying ≡ true) × ((e.value ≡ e.doc) ⊎ (1 ≤ e.resets))

-- The same of a result, where there is one.
abbrev pub SyncedResult : Option Editor → Type 0
SyncedResult none = Unit {0}
SyncedResult (some e) = Synced e

-- One event on the page: a change to the document by the user or by a command, a call of the api, a
-- write to the textarea, a form's reset and its timer, an attribute that changes. The textarea's
-- children are re-rendered once it has been written to.
pub data Move (normal : Text → Text) : Editor → Editor → Type 0 where
  edits : (t : Transaction) (e f : Editor) → dispatch normal t e ≡ some f → Move normal e f
  sets :
      (v : Text) (notify : Bool) (e f : Editor)
      → set_value normal v notify e ≡ some f
      → Move normal e f
  inserts :
      (at : ℕ) (t : Text) (b : Bool) (e f : Editor)
      → insert_at normal at t e ≡ some (f, b)
      → Move normal e f
  writes : (v : Text) (e f : Editor) → write normal v e ≡ some f → Move normal e f
  renders : (t : Text) (e : Editor) → e.dirty ≡ true → Move normal e (rerender normal t e)
  follow_runs : (e f : Editor) → on_follow normal e ≡ some f → Move normal e f
  form_resets : (prevented : Bool) (e : Editor) → Move normal e (reset normal prevented e)
  timer_runs : (e f : Editor) → 1 ≤ e.resets → on_reset normal e ≡ some f → Move normal e f
  locks : (b : Bool) (e : Editor) → Move normal e (lock b e)
  observer_runs : (e : Editor) → Move normal e (on_observed e)

pub data Reach (normal : Text → Text) : Editor → Type 0 where
  start : (limit : Option ℕ) (locked : Bool) (t : Text) → Reach normal (mount normal limit locked t)
  next : {e f : Editor} → Reach normal e → Move normal e f → Reach normal f

module _ (normal : Text → Text) (law : IsNormal normal) where
  new_doc-IsClean : (t : Transaction) (e : Editor) → IsClean e.doc → IsClean (new_doc normal t e)
  new_doc-IsClean t e h = append-IsClean (take t.from e.doc) _ (take-IsClean t.from e.doc h) (
      append-IsClean (normal t.insert) (drop t.to e.doc) (law.clean t.insert)
        (drop-IsClean t.to e.doc h))

  all-is_valid : (v : Text) (e : Editor) → is_valid normal (replacing v e) e ≡ true
  all-is_valid v e = ground arith

  all-doc_changed : (v d : Text) → text_eq v d ≡ false → (nonempty v || ltb 0 (length d)) ≡ true
  all-doc_changed [] [] h = ground arith
  all-doc_changed [] (x ∷ d) h = ground arith
  all-doc_changed (x ∷ v) d h = refl

  -- What a replacement of the whole document leaves.
  abbrev pub replaced : Text → Bool → Editor → Editor
  replaced v notify e = record e {
    doc = normal v;
    value = normal v;
    dirty = true;
    notifying = true;
    events = if notify then suc e.events else e.events;
  }

  dispatch-all :
      (v : Text) (notify : Bool) (e : Editor)
      → text_eq v e.doc ≡ false
      → finally (dispatch normal (replacing v e) (record e { notifying = notify }))
        ≡ some (replaced v notify e)
  unfolding dispatch is_refused on_update native_set
  dispatch-all v notify e h =
      rw
        (
          all-is_valid v (record e { notifying = notify }),
          drop-length e.doc,
          append_empty (normal v),
          all-doc_changed v e.doc h,
          law.fixes (normal v) (law.clean v),
        )
        refl

  -- `setValue` never throws.
  pub set_value-result :
      (v : Text) (notify : Bool) (e : Editor)
      → set_value normal v notify e
        ≡ some (if text_eq v e.doc then record e { notifying = true } else replaced v notify e)
  unfolding set_value
  set_value-result v notify e = elim (Bool-cases (text_eq v e.doc)) [
    | inl same ↦ rw same refl
    | inr other ↦ rw other (dispatch-all v notify e other)
  ]

  empty-change :
      (a b : ℕ) (u d : Text)
      → (nonempty u || ltb a b) ≡ false
      → leb a b ≡ true
      → take a d ++ (normal u ++ drop b d) ≡ d
  empty-change a b [] d h le = rw (law.fixes [] tt, same) (take-drop b d)
    where
      same : a ≡ b
      same = ground arith
  empty-change a b (x ∷ u) d h le = ground arith

  unchanged :
      (t : Transaction) (e : Editor)
      → doc_changed t ≡ false
      → leb t.from t.to ≡ true
      → new_doc normal t e ≡ e.doc
  unchanged t e h le = empty-change t.from t.to t.insert e.doc h le

  on_update-Synced :
      (t : Transaction) (e : Editor)
      → Synced e
      → leb t.from t.to ≡ true
      → Synced (on_update normal (doc_changed t) (record e { doc = new_doc normal t e }))
  unfolding on_update native_set
  on_update-Synced t e s le = elim (Bool-cases (doc_changed t)) [
    | inl changed ↦ rw changed (
      new_doc-IsClean t e s.0,
      law.clean (new_doc normal t e),
      s.2,
      inl (law.fixes (new_doc normal t e) (new_doc-IsClean t e s.0)),
    )
    | inr same ↦ rw (same, unchanged t e same le) s
  ]

  dispatch-Synced : (t : Transaction) (e : Editor) → Synced e → SyncedResult (dispatch normal t e)
  unfolding dispatch
  dispatch-Synced t e s = ground (arith, on_update-Synced t e s)

  replaced-Synced : (v : Text) (notify : Bool) (e : Editor) → Synced (replaced v notify e)
  replaced-Synced v notify e = (law.clean v, law.clean v, refl, inl refl)

  set_value-Synced :
      (v : Text) (notify : Bool) (e : Editor)
      → Synced e
      → SyncedResult (set_value normal v notify e)
  set_value-Synced v notify e s =
      rw (set_value-result v notify e) (elim (Bool-cases (text_eq v e.doc)) [
        | inl same ↦ rw same (s.0, s.1, refl, s.3)
        | inr other ↦ rw other (replaced-Synced v notify e)
      ])

  -- A value that is to become the document's, and already is the textarea's.
  set_value-value-Synced :
      (notify : Bool) (e : Editor)
      → IsClean e.value
      → IsClean e.doc
      → SyncedResult (set_value normal e.value notify e)
  set_value-value-Synced notify e h g =
      rw (set_value-result e.value notify e) (elim (Bool-cases (text_eq e.value e.doc)) [
        | inl same ↦ rw same (g, h, refl, inl (text_eq_sound e.value e.doc same))
        | inr other ↦ rw other (replaced-Synced e.value notify e)
      ])

  abbrev SyncedPair : Option (Editor × Bool) → Type 0
  SyncedPair none = Unit {0}
  SyncedPair (some (f, b)) = Synced f

  pasted-Synced : (b : Bool) (o : Option Editor) → SyncedResult o → SyncedPair (pasted b o)
  pasted-Synced b none h = tt
  pasted-Synced b (some e) h = h

  either-Synced :
      (b : Bool) (e : Editor) (o : Option (Editor × Bool))
      → Synced e
      → SyncedPair o
      → SyncedPair (if b then some (e, false) else o)
  either-Synced true e o s h = s
  either-Synced false e o s h = h

  insert_at-Synced :
      (at : ℕ) (t : Text) (e : Editor) → Synced e → SyncedPair (insert_at normal at t e)
  unfolding insert_at
  insert_at-Synced at t e s = either-Synced e.locked e _ s (
      pasted-Synced (doc_changed (pasting at t) && not (is_refused normal (pasting at t) e))
        (dispatch normal (pasting at t) e) (dispatch-Synced (pasting at t) e s))

  write-Synced : (v : Text) (e : Editor) → Synced e → SyncedResult (write normal v e)
  unfolding write native_set
  write-Synced v e s =
      set_value-value-Synced false (record e { value = normal v; dirty = true }) (law.clean v) s.0

  followed-Synced : (v : Text) (o : Option Editor) → SyncedResult o → SyncedResult (followed v o)
  followed-Synced v none h = tt
  followed-Synced v (some e) h = h

  on_follow-Synced : (e : Editor) → Synced e → SyncedResult (on_follow normal e)
  unfolding on_follow
  on_follow-Synced e s =
      followed-Synced e.value _
        (elim (Bool-cases (text_eq e.doc e.pristine && not (text_eq e.value e.pristine))) [
          | inl b ↦ rw b (set_value-Synced e.value false e s)
          | inr b ↦ rw b s
        ])

  on_reset-Synced : (e : Editor) → Synced e → SyncedResult (on_reset normal e)
  unfolding on_reset
  on_reset-Synced e s = set_value-value-Synced true (record e { resets = e.resets - 1 }) s.1 s.0

  result-Synced : (o : Option Editor) (f : Editor) → o ≡ some f → SyncedResult o → Synced f
  result-Synced o f eq h = subst SyncedResult eq h

  Move-Synced : {e f : Editor} → Move normal e f → Synced e → Synced f
  unfolding rerender reset lock on_observed
  Move-Synced (edits t e f eq) s = result-Synced _ f eq (dispatch-Synced t e s)
  Move-Synced (sets v n e f eq) s = result-Synced _ f eq (set_value-Synced v n e s)
  Move-Synced (inserts at t b e f eq) s = subst SyncedPair eq (insert_at-Synced at t e s)
  Move-Synced (writes v e f eq) s = result-Synced _ f eq (write-Synced v e s)
  Move-Synced (renders t e d) s = rw d s
  Move-Synced (follow_runs e f eq) s = result-Synced _ f eq (on_follow-Synced e s)
  Move-Synced (form_resets true e) s = (s.0, s.1, s.2, inr (omega arith))
  Move-Synced (form_resets false e) s = (s.0, law.clean e.default, s.2, inr (omega arith))
  Move-Synced (timer_runs e f some_ eq) s = result-Synced _ f eq (on_reset-Synced e s)
  Move-Synced (locks b e) s = s
  Move-Synced (observer_runs e) s = s

  Reach-Synced_lem : {e : Editor} → Reach normal e → Synced e
  unfolding mount
  Reach-Synced_lem (start limit locked t) =
      (law.clean (normal t), law.clean t, refl, inl (sym (law.fixes (normal t) (law.clean t))))
  Reach-Synced_lem (next r m) = Move-Synced m (Reach-Synced_lem r)

  -- Whatever is done with the editor and with its textarea, in any order, the textarea's value is
  -- the editor's document, unless the timer of a form's reset is still to run. Of re-renders of the
  -- textarea's children this is so once the textarea has been written to.
  pub value-doc : {e : Editor} → Reach normal e → (e.value ≡ e.doc) ⊎ (1 ≤ e.resets)
  value-doc r = (Reach-Synced_lem r).3
