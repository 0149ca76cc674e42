-- ===== src/Editor/Life/Examples.antt =====
-- An element that is inserted, and taken out of the document again.
use oxidt_kit.Kit.{ℕ, ◌≡◌, refl, true, Bool, []}
use oxidt_kit.Editor.Element.{
  connecting, disconnecting, Element, connected_callback, disconnected_callback, run, created,
}
use oxidt_kit.Editor.Wiring.{Page, reset_form, empty_page}
use oxidt_kit.Editor.Life.{attaches, Life, start, inserts, removes, runs, resets}
use oxidt_kit.Editor.Life.Detached.{removed-detached}

abbrev unqueued : Element → Element
unqueued e = record e { queue = [] }

abbrev inserted : Element
inserted = connected_callback (created true)

abbrev mounted : Element
mounted = run connecting (unqueued inserted)

abbrev mounted_page : Page
mounted_page = attaches connecting 2 (unqueued inserted) empty_page

abbrev every : ℕ → Bool
every id = true

abbrev reset_page : Page
reset_page = reset_form every mounted_page.attached mounted_page

abbrev out : Element
out = disconnected_callback mounted

abbrev left : Page
left = attaches disconnecting 0 (unqueued out) reset_page

Life-left : Life (run disconnecting (unqueued out)) left
unfolding connected_callback disconnected_callback run
Life-left =
    runs 0 disconnecting []
      (removes (resets every (runs 2 connecting [] (inserts (start true) refl) refl)) refl) refl

removed-detached_example : left.attached ≡ []
unfolding connected_callback disconnected_callback run
removed-detached_example = removed-detached Life-left refl refl
