-- ===== src/Editor/Mount/Examples.antt =====
-- Runs of an editor with its textarea, with the newlines of the HTML standard.
use Prim.Native.Nat.{max}
use oxidt_kit.Kit.{
  suc, ◌≤◌, ◌≡◌, refl, ◌==◌, not, ◌&&◌, ◌⊎◌, Bool, true, false, Text, codes, text_eq, none, some,
  [], ◌∷◌, length, if◌then◌else◌, arith,
}
use oxidt_kit.Editor.Mount.{
  Editor, Transaction, dispatch, set_value, insert_at, rerender, on_follow, mount, reset,
}
use oxidt_kit.Editor.Mount.Texts.{IsClean, IsNormal}
use oxidt_kit.Editor.Mount.Sync.{edits, form_resets, start, next, value-doc}
use oxidt_kit.Editor.Mount.Insert.{Bounded, dispatch-limit, insert_at-throws}
use oxidt_kit.Editor.Mount.Follow.{rerender_lost, set_value_lem}

-- From a text on, where a carriage return stands before it or not.
abbrev newlines_from : Bool → Text → Text
newlines_from b [] = []
newlines_from b (c ∷ t) =
    let rest = newlines_from (c == 13) t in
    if c == 13 then 10 ∷ rest else if b && (c == 10) then rest else c ∷ rest

abbrev newlines : Text → Text
newlines t = newlines_from false t

newlines_from-IsClean : (b : Bool) (t : Text) → IsClean (newlines_from b t)
newlines_from-IsClean b [] = tt
newlines_from-IsClean b (c ∷ t) = ground (arith, newlines_from-IsClean (c == 13) t)

newlines-fixes : (t : Text) → IsClean t → newlines t ≡ t
newlines-fixes [] h = refl
newlines-fixes (c ∷ t) h = grind (arith, newlines-fixes t h.1)

newlines-IsNormal : IsNormal newlines
newlines-IsNormal = record { clean = newlines_from-IsClean false; fixes = newlines-fixes }

abbrev typed : Transaction
typed = record { from = 1; to = 1; insert = codes "b"; anchor = some 2; input = true }

abbrev at_first : Editor
at_first = mount newlines (some 2) false (codes "a")

abbrev after_typing : Editor
after_typing = record (mount newlines (some 2) false (codes "a")) {
  doc = codes "ab";
  value = codes "ab";
  dirty = true;
  events = 1;
}

typed_run : dispatch newlines typed at_first ≡ some after_typing
unfolding dispatch mount
typed_run = refl

value-doc_example :
    ((reset newlines false after_typing).value ≡ (reset newlines false after_typing).doc)
    ⊎ (1 ≤ (reset newlines false after_typing).resets)
value-doc_example = value-doc newlines newlines-IsNormal (
    next (next (start (some 2) false (codes "a")) (edits typed at_first after_typing typed_run))
      (form_resets false after_typing))

dispatch-limit_example :
    Bounded newlines (max 2 (length at_first.doc)) (dispatch newlines typed at_first)
unfolding mount
dispatch-limit_example = dispatch-limit newlines typed 2 at_first refl refl

insert_at-throws_example : insert_at newlines (length at_first.doc) (13 ∷ 10 ∷ []) at_first ≡ none
unfolding mount
insert_at-throws_example = insert_at-throws newlines (13 ∷ 10 ∷ []) at_first refl (omega arith)

rerender_lost_example :
    (f : Editor) × (on_follow newlines
        (rerender newlines (codes "b") (mount newlines none false (codes "a")))
      ≡ some f)
    × (f.doc ≡ newlines (codes "b"))
    × (f.value ≡ newlines (codes "b"))
    × (f.events ≡ 0)
    × ((g : Editor) × (on_follow newlines (rerender newlines (codes "c") f) ≡ some g)
        × (g.doc ≡ newlines (codes "b"))
        × (g.value ≡ newlines (codes "b")))
rerender_lost_example =
    rerender_lost newlines newlines-IsNormal none false (codes "a") (codes "b") (codes "c") refl

set_value_lem_example :
    (f : Editor) × (set_value newlines (codes "b") true at_first ≡ some f)
    × (f.doc ≡ newlines (codes "b"))
    × (f.value ≡ newlines (codes "b"))
    × (f.notifying ≡ true)
    × (f.events ≡ (
        if true && not (text_eq (codes "b") at_first.doc)
        then suc at_first.events
        else at_first.events))
unfolding mount
set_value_lem_example = set_value_lem newlines newlines-IsNormal (codes "b") true at_first refl refl
