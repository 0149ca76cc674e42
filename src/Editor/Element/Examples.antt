-- ===== src/Editor/Element/Examples.antt =====
-- An element that is moved in the document and then taken out of it.
use oxidt_kit.Kit.{refl, ◌≡◌, true, false, [], ◌∷◌, some}
use oxidt_kit.Editor.Element.{
  connecting, disconnecting, Element, is_set, connected_callback, disconnected_callback, run,
  created, Reach, start, inserts, removes, runs,
}
use oxidt_kit.Editor.Element.Mounted.{Accounted, Reach-Accounted}
use oxidt_kit.Editor.Element.Drained.{Present, drained-none, drained-editor}

abbrev inserted : Element
inserted = connected_callback (created true)

-- Moved before a microtask has run: three are queued.
abbrev moved : Element
moved = connected_callback (disconnected_callback inserted)

abbrev settled : Element
settled = run connecting (record moved { queue = disconnecting ∷ connecting ∷ [] })

abbrev settled_twice : Element
settled_twice = run disconnecting (record settled { queue = connecting ∷ [] })

abbrev drained : Element
drained = run connecting (record settled_twice { queue = [] })

Reach-inserted : Reach Present inserted
Reach-inserted = inserts (created true) (start true refl) refl

Reach-drained : Reach Present drained
unfolding connected_callback disconnected_callback run
Reach-drained =
    runs settled_twice connecting []
      (runs settled disconnecting (connecting ∷ [])
        (runs moved connecting (disconnecting ∷ connecting ∷ [])
          (inserts _ (removes inserted Reach-inserted refl) refl) refl)
        refl)
      refl

drained_once : (drained.editor ≡ some 0) × (drained.mounted ≡ 1) × (drained.destroyed ≡ [])
unfolding connected_callback disconnected_callback run
drained_once = (refl, refl, refl)

drained-editor_example : is_set drained.editor ≡ drained.is_connected
unfolding connected_callback disconnected_callback run
drained-editor_example = drained-editor Reach-drained refl

abbrev removed : Element
removed = run disconnecting (record (disconnected_callback drained) { queue = [] })

drained-none_test : is_set removed.editor ≡ false
unfolding connected_callback disconnected_callback run
drained-none_test =
    drained-none
      (runs (disconnected_callback drained) disconnecting [] (removes drained Reach-drained refl)
        refl)
      refl refl

Reach-Accounted_example : Accounted 0 drained
Reach-Accounted_example = Reach-Accounted 0 Reach-drained
