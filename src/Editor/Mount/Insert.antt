-- ===== src/Editor/Mount/Insert.antt =====
-- What is put into the document by a user's input and by `insert`.
use Prim.Native.Nat.{max}
use oxidt_kit.Kit.{
  ℕ, ◌≤◌, ◌<◌, ◌≡◌, refl, ap, ltb, not, ◌&&◌, Bool, true, false, Text, Option, none, some, length,
  if◌then◌else◌, arith,
}
use oxidt_kit.Editor.Mount.{
  Editor, Transaction, pasting, new_doc, is_valid, is_refused, over, doc_changed, native_set,
  on_update, dispatch, insert_at,
}
use oxidt_kit.Editor.Mount.Texts.{take-length, drop-length, append_empty, length-append}

module _ (normal : Text → Text) where
  abbrev pub Bounded : ℕ → Option Editor → Type 0
  Bounded n none = Unit {0}
  Bounded n (some f) = length f.doc ≤ n

  on_update-doc : (b : Bool) (e : Editor) → (on_update normal b e).doc ≡ e.doc
  unfolding on_update native_set
  on_update-doc true e = refl
  on_update-doc false e = refl

  filter-Bounded :
      (valid input : Bool) (o : Option ℕ) (limit m : ℕ) (e f : Editor)
      → length f.doc ≡ m
      → input ≡ true
      → o ≡ some limit
      → Bounded (max limit (length e.doc)) (
          if not valid
          then none
          else if input && over o m && ltb (length e.doc) m
          then some e
          else some f)
  filter-Bounded valid input o limit m e f h i b = rw (i, b) ground arith

  -- Where the textarea has a `maxLength`, a user's input leaves a document no longer than that, or no
  -- longer than it was.
  pub dispatch-limit :
      (t : Transaction) (limit : ℕ) (e : Editor)
      → t.input ≡ true
      → e.limit ≡ some limit
      → Bounded (max limit (length e.doc)) (dispatch normal t e)
  unfolding dispatch is_refused
  dispatch-limit t limit e input bound =
      filter-Bounded (is_valid normal t e) t.input e.limit limit (length (new_doc normal t e)) e
        (on_update normal (doc_changed t) (record e { doc = new_doc normal t e }))
        (ap length (on_update-doc (doc_changed t) (record e { doc = new_doc normal t e }))) input
        bound

  past_end :
      (t : Text) (e : Editor)
      → length (normal t) < length t
      → is_valid normal (pasting (length e.doc) t) e ≡ false
  past_end t e shorter =
      rw
        (
          take-length e.doc,
          drop-length e.doc,
          append_empty (normal t),
          length-append e.doc (normal t),
        )
        ground arith

  -- In an editor that is not locked, `insert` at the document's end throws for a text that the
  -- normalisation of newlines makes shorter: the cursor is to go behind the text as it was given.
  pub insert_at-throws :
      (t : Text) (e : Editor)
      → e.locked ≡ false
      → length (normal t) < length t
      → insert_at normal (length e.doc) t e ≡ none
  unfolding insert_at dispatch
  insert_at-throws t e open_ shorter = rw (open_, past_end t e shorter) refl
