-- ===== src/Editor/Mount/Follow.antt =====
-- What becomes of re-renders of the textarea's children, and of `setValue`.

use oxidt_kit.Kit.{
  ℕ, suc, ◌≡◌, refl, sym, ◌∙◌, ap, subst, not, ◌&&◌, Bool, true, false, Bool-cases, inl, inr, Text,
  text_eq, text_eq_sound, text_eq_refl, Option, some, if◌then◌else◌, arith,
}
use oxidt_kit.Editor.Mount.{Editor, set_value, rerender, followed, on_follow, mount}
use oxidt_kit.Editor.Mount.Texts.{IsNormal}
use oxidt_kit.Editor.Mount.Sync.{replaced, set_value-result}

module _ (normal : Text → Text) (law : IsNormal normal) where
  set_value-by :
      (v : Text) (notify : Bool) (e : Editor) (b : Bool)
      → text_eq v e.doc ≡ b
      → set_value normal v notify e
        ≡ some (if b then record e { notifying = true } else replaced normal law v notify e)
  set_value-by v notify e b h =
      subst
        (λ c.
          set_value normal v notify e
          ≡ some (if c then record e { notifying = true } else replaced normal law v notify e))
        h (set_value-result normal law v notify e)

  on_follow-sets :
      (e : Editor)
      → text_eq e.doc e.pristine ≡ true
      → text_eq e.value e.pristine ≡ false
      → text_eq e.value e.doc ≡ false
      → on_follow normal e
        ≡ some
            (record (replaced normal law e.value false e) { pristine = e.value; follows = false })
  unfolding on_follow
  on_follow-sets e same other new =
      rw (same, other) (ap (followed e.value) (set_value-by e.value false e false new))

  on_follow-keeps :
      (e : Editor)
      → text_eq e.value e.pristine ≡ true
      → text_eq e.doc e.pristine ≡ true
      → on_follow normal e ≡ some (record e { pristine = e.value; follows = false })
  unfolding on_follow
  on_follow-keeps e old same = rw (same, old) refl

  -- The editor that `mountEditor` makes, after a re-render that changed the text was followed.
  abbrev followed_once : Option ℕ → Bool → Text → Text → Editor
  followed_once limit locked s t = record (mount normal limit locked s) {
    doc = normal t;
    value = normal t;
    dirty = true;
    default = t;
    pristine = normal t;
  }

  on_follow-first :
      (limit : Option ℕ) (locked : Bool) (s t : Text)
      → text_eq (normal t) (normal s) ≡ false
      → on_follow normal (rerender normal t (mount normal limit locked s))
        ≡ some (followed_once limit locked s t)
  unfolding rerender mount
  on_follow-first limit locked s t other =
      subst
        (λ u.
          on_follow normal (rerender normal t (mount normal limit locked s))
          ≡ some (record (followed_once limit locked s t) { doc = u; value = u }))
        (fixed t)
        (on_follow-sets (rerender normal t (mount normal limit locked s))
          (rw (fixed s) (text_eq_refl (normal s))) other (rw (fixed s) other))
    where
      fixed : (u : Text) → normal (normal u) ≡ normal u
      fixed u = law.fixes (normal u) (law.clean u)

  on_follow-second :
      (limit : Option ℕ) (locked : Bool) (s t u : Text)
      → on_follow normal (rerender normal u (followed_once limit locked s t))
        ≡ some (record (followed_once limit locked s t) { default = u })
  unfolding rerender mount
  on_follow-second limit locked s t u =
      on_follow-keeps (rerender normal u (followed_once limit locked s t)) (text_eq_refl (normal t))
        (text_eq_refl (normal t))

  -- The first re-render that changes the text of a field that the user has not edited is followed,
  -- without an input event. Following it writes to the textarea, whose value its children then no
  -- longer change: the next re-render is lost, though the user has still edited nothing.
  pub rerender_lost :
      (limit : Option ℕ) (locked : Bool) (s t u : Text)
      → text_eq (normal t) (normal s) ≡ false
      → (f : Editor) × (on_follow normal (rerender normal t (mount normal limit locked s)) ≡ some f)
        × (f.doc ≡ normal t)
        × (f.value ≡ normal t)
        × (f.events ≡ 0)
        × ((g : Editor) × (on_follow normal (rerender normal u f) ≡ some g)
            × (g.doc ≡ normal t)
            × (g.value ≡ normal t))
  unfolding mount
  rerender_lost limit locked s t u other = (
    followed_once limit locked s t,
    on_follow-first limit locked s t other,
    refl,
    refl,
    refl,
    (
      record (followed_once limit locked s t) { default = u },
      on_follow-second limit locked s t u,
      refl,
      refl,
    ),
  )

  -- `setValue` never throws, and from a document that the textarea holds it leaves both with the
  -- given text, its newlines normal. One input event is dispatched where it is asked for and the
  -- text differs, none otherwise.
  pub set_value_lem :
      (v : Text) (notify : Bool) (e : Editor)
      → e.value ≡ e.doc
      → normal e.doc ≡ e.doc
      → (f : Editor) × (set_value normal v notify e ≡ some f)
        × (f.doc ≡ normal v)
        × (f.value ≡ normal v)
        × (f.notifying ≡ true)
        × (f.events ≡ (if notify && not (text_eq v e.doc) then suc e.events else e.events))
  set_value_lem v notify e held clean = elim (Bool-cases (text_eq v e.doc)) [
    | inl same ↦
        let is_doc : e.doc ≡ normal v = sym clean ∙ ap normal (sym (text_eq_sound v e.doc same)) in
        (
          record e { notifying = true },
          set_value-by v notify e true same,
          is_doc,
          held ∙ is_doc,
          refl,
          rw same (ground arith),
        )
    | inr other ↦ (
      replaced normal law v notify e,
      set_value-by v notify e false other,
      refl,
      refl,
      refl,
      rw other (ground arith),
    )
  ]
