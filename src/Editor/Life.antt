-- ===== src/Editor/Life.antt =====
-- The custom element together with what its editors attach to the page: the connecting microtask
-- mounts an editor and the disconnecting one destroys it.
pub mod Detached
mod Examples
use oxidt_kit.Kit.{
  ℕ, zero, suc, ◌≡◌, refl, ap, subst, sym, ◌∙◌, ◌==◌, not, ◌||◌, Bool, true, false, Bool-cases, inl,
  inr, Option, none, some, List, [], ◌∷◌, All, arith, if◌then◌else◌,
}
use oxidt_kit.Editor.Element.{
  Microtask, connecting, disconnecting, Element, is_set, connected_callback, disconnected_callback,
  run, mounts, created,
}
use oxidt_kit.Editor.Element
use oxidt_kit.Editor.Element.Drained.{drained-none}
use oxidt_kit.Editor.Wiring.{
  Attachment, Page, filter, attach, attach_labels, mount_editor, destroy, clear, reset_form,
  empty_page,
}
use oxidt_kit.Editor.Wiring
use oxidt_kit.Editor.Wiring.Released.{is_other, destroy-releases, reset_form-rest}

-- `this.editor?.destroy()`.
abbrev pub destroy_held : Option ℕ → Page → Page
destroy_held none w = w
destroy_held (some id) w = destroy id w

-- What a microtask of the element does to the page, where the textarea has `n` labels.
unfoldable pub attaches : Microtask → ℕ → Element → Page → Page
attaches connecting n e w =
    if not e.is_connected || is_set e.editor
    then w
    else if e.has_parts
    then mount_editor e.mounted n w
    else w
attaches disconnecting n e w = if e.is_connected then w else destroy_held e.editor w

-- The element is inserted, removed and changed, its microtasks run, forms are reset, timers run.
pub data Life : Element → Page → Type 0 where
  start : (b : Bool) → Life (created b) empty_page
  inserts :
      {e : Element} {w : Page} → Life e w → e.is_connected ≡ false → Life (connected_callback e) w
  removes :
      {e : Element} {w : Page} → Life e w → e.is_connected ≡ true → Life (disconnected_callback e) w
  renders : {e : Element} {w : Page} (b : Bool) → Life e w → Life (record e { has_parts = b }) w
  runs :
      {e : Element} {w : Page} (n : ℕ) (t : Microtask) (ts : List Microtask)
      → Life e w
      → e.queue ≡ t ∷ ts
      → Life (run t (record e { queue = ts })) (attaches t n (record e { queue = ts }) w)
  resets :
      {e : Element} {w : Page} (is_owned : ℕ → Bool)
      → Life e w
      → Life e (reset_form is_owned w.attached w)
  timer_runs :
      {e : Element} {w : Page} (t : ℕ)
      → Life e w
      → Life e (record w { timers = clear (some t) w.timers })
