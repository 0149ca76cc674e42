-- ===== src/Editor/Mount.antt =====
-- `mountEditor`: a textarea and the editor that stands in for it. The textarea is the HTML
-- standard's: a value that re-rendered children change while it is not dirty, which a write and a
-- form's reset set and unset. CodeMirror's part is to apply a transaction. Of the configuration the
-- read-only flag stands here, and the rest in Controls; the selection is left out.
pub mod Texts
pub mod Sync
pub mod Insert
pub mod Follow
mod Examples
use oxidt_kit.Kit.{
  ℕ, zero, suc, ◌+◌, ◌-◌, ltb, leb, not, ◌&&◌, ◌||◌, Bool, true, false, Text, nonempty, text_eq,
  Option, none, some, List, [], ◌∷◌, ◌++◌, length, take, if◌then◌else◌,
}

-- `textarea.maxLength`; none where it is negative.
pub record Editor : Type 0 where
  pub limit : Option ℕ
  pub locked : Bool  -- the textarea is disabled or read-only
  pub read_only : Bool  -- the editor's configuration
  pub doc : Text  -- view.state.doc.toString()
  pub value : Text  -- the textarea's
  pub dirty : Bool
  pub default : Text  -- its children
  pub pristine : Text
  pub notifying : Bool
  pub events : ℕ  -- "input" events dispatched
  pub follows : Bool  -- the callback of `follow` is queued
  pub observed : Bool  -- the callback of `observer` is queued
  pub resets : ℕ  -- timers of `reset` that run

abbrev pub drop : ℕ → Text → Text
drop zero t = t
drop (suc n) [] = []
drop (suc n) (x ∷ t) = drop n t

-- One change with its annotations: the range and what is put there, the cursor, and whether it is
-- a user's "input".
pub record Transaction : Type 0 where
  pub from : ℕ
  pub to : ℕ
  pub insert : Text
  pub anchor : Option ℕ
  pub input : Bool

abbrev pub fits : Option ℕ → ℕ → Bool
fits none n = true
fits (some a) n = leb a n

abbrev pub over : Option ℕ → ℕ → Bool
over none n = false
over (some limit) n = ltb limit n

-- `changes` is empty only where it puts nothing at an empty range.
abbrev pub doc_changed : Transaction → Bool
doc_changed t = nonempty t.insert || ltb t.from t.to

-- The whole document is replaced.
abbrev pub replacing : Text → Editor → Transaction
replacing v e = record { from = 0; to = length e.doc; insert = v; anchor = none; input = false }

abbrev pub finally : Option Editor → Option Editor
finally none = none
finally (some e) = some (record e { notifying = true })

abbrev pub pasting : ℕ → Text → Transaction
pasting at t = record {
  from = at;
  to = at;
  insert = t;
  anchor = some (at + length t);
  input = true;
}

abbrev pub pasted : Bool → Option Editor → Option (Editor × Bool)
pasted changed none = none
pasted changed (some e) = some (e, changed)

abbrev pub followed : Text → Option Editor → Option Editor
followed v none = none
followed v (some e) = some (record e { pristine = v; follows = false })

-- An attribute of the textarea or of a fieldset changes; then the callback of `observer`.
unfoldable pub lock : Bool → Editor → Editor
lock b e = record e { locked = b; observed = true }

unfoldable pub on_observed : Editor → Editor
on_observed e = record e { read_only = e.locked; observed = false }

-- `normal` is what newlines become, in a textarea's value as in CodeMirror's documents.
module _ (normal : Text → Text) where
  abbrev pub new_doc : Transaction → Editor → Text
  new_doc t e = take t.from e.doc ++ (normal t.insert ++ drop t.to e.doc)

  -- CodeMirror throws on a range or a cursor outside of the document.
  abbrev pub is_valid : Transaction → Editor → Bool
  is_valid t e = leb t.from t.to && leb t.to (length e.doc) && fits t.anchor (length (new_doc t e))

  -- The transaction filter: a user's input does not go over the limit.
  unfoldable pub is_refused : Transaction → Editor → Bool
  is_refused t e =
      t.input && over e.limit (length (new_doc t e)) && ltb (length e.doc) (length (new_doc t e))

  -- The textarea's own setter.
  unfoldable pub native_set : Text → Editor → Editor
  native_set v e = record e { value = normal v; dirty = true }

  -- The update listener.
  unfoldable pub on_update : Bool → Editor → Editor
  unfolding native_set
  on_update changed e =
      if changed
      then (let f = native_set e.doc e in
          record f { events = if e.notifying then suc e.events else e.events })
      else e

  -- `view.dispatch`; `none` where it throws.
  unfoldable pub dispatch : Transaction → Editor → Option Editor
  unfolding is_refused on_update
  dispatch t e =
      if not (is_valid t e)
      then none
      else if is_refused t e
      then some e
      else some (on_update (doc_changed t) (record e { doc = new_doc t e }))

  -- `api.setValue`.
  unfoldable pub set_value : Text → Bool → Editor → Option Editor
  unfolding dispatch
  set_value v notify e =
      let f = record e { notifying = notify } in
      finally (if text_eq v f.doc then some f else dispatch (replacing v f) f)

  -- `api.insert`, with whether the document is another one afterwards.
  unfoldable pub insert_at : ℕ → Text → Editor → Option (Editor × Bool)
  unfolding dispatch
  insert_at at t e =
      if e.locked
      then some (e, false)
      else pasted (doc_changed (pasting at t) && not (is_refused (pasting at t) e))
          (dispatch (pasting at t) e)

  -- A write of `textarea.value`.
  unfoldable pub write : Text → Editor → Option Editor
  unfolding set_value native_set
  write v e = let f = native_set v e in set_value f.value false f

  -- A re-render of the textarea's children.
  unfoldable pub rerender : Text → Editor → Editor
  rerender t e = record e {
    default = t;
    value = if e.dirty then e.value else normal t;
    follows = true;
  }

  -- The callback of `follow`.
  unfoldable pub on_follow : Editor → Option Editor
  unfolding set_value
  on_follow e = followed e.value (
      if text_eq e.doc e.pristine && not (text_eq e.value e.pristine)
      then set_value e.value false e
      else some e)

  -- The listener for a form's reset, and what the form then does unless a listener prevents it.
  unfoldable pub reset : Bool → Editor → Editor
  reset prevented e =
      let f = record e { resets = suc e.resets } in
      if prevented then f else record f { value = normal e.default; dirty = false }

  -- Its timer.
  unfoldable pub on_reset : Editor → Option Editor
  unfolding set_value
  on_reset e = set_value e.value true (record e { resets = e.resets - 1 })

  -- `mountEditor` on a textarea with these children, not written to before.
  unfoldable pub mount : Option ℕ → Bool → Text → Editor
  mount limit locked t = record {
    limit = limit;
    locked = locked;
    read_only = locked;
    doc = normal (normal t);
    value = normal t;
    dirty = false;
    default = t;
    pristine = normal t;
    notifying = true;
    events = 0;
    follows = false;
    observed = false;
    resets = 0;
  }
