-- ===== src/Editor/Element.antt =====
-- The custom element `oxidt-markdown-editor`: its callbacks queue microtasks, which mount the editor
-- or destroy it. An editor is known by its number.
pub mod Mounted
pub mod Drained
pub mod Loading
mod Examples
use oxidt_kit.Kit.{
  ℕ, suc, not, ◌||◌, ◌≡◌, Bool, true, false, Option, none, some, List, [], ◌∷◌, ◌++◌, if◌then◌else◌,
}

-- The two microtasks.
pub data Microtask : Type 0 where
  connecting disconnecting : Microtask

pub record Element : Type 0 where
  pub is_connected : Bool
  pub has_parts : Bool  -- a textarea and a [data-editor-host]
  pub editor : Option ℕ
  pub queue : List Microtask  -- oldest first
  pub mounted : ℕ  -- how many editors were mounted; the next one's number
  pub destroyed : List ℕ  -- newest first

abbrev pub is_set : Option ℕ → Bool
is_set none = false
is_set (some id) = true

abbrev pub queued : Microtask → Element → Element
queued t e = record e { queue = e.queue ++ t ∷ [] }

-- The element is inserted, or removed, and its callback runs.
unfoldable pub connected_callback : Element → Element
connected_callback e = queued connecting (record e { is_connected = true })

unfoldable pub disconnected_callback : Element → Element
disconnected_callback e = queued disconnecting (record e { is_connected = false })

-- `this.editor = mountEditor(textarea, host)`.
abbrev pub mounts : Element → Element
mounts e = record e { editor = some e.mounted; mounted = suc e.mounted }

abbrev pub destroy : Option ℕ → List ℕ → List ℕ
destroy none ids = ids
destroy (some id) ids = id ∷ ids

unfoldable pub run : Microtask → Element → Element
run connecting e =
    if not e.is_connected || is_set e.editor then e else if e.has_parts then mounts e else e
run disconnecting e =
    if e.is_connected
    then e
    else record e { editor = none; destroyed = destroy e.editor e.destroyed }

abbrev pub created : Bool → Element
created parts = record {
  is_connected = false;
  has_parts = parts;
  editor = none;
  queue = [];
  mounted = 0;
  destroyed = [];
}

-- The document inserts the element, removes it and changes its children, and the browser runs the
-- oldest microtask, in any order; `Parts` are the states of the children that occur.
pub data Reach (Parts : Bool → Type 0) : Element → Type 0 where
  start : (b : Bool) → Parts b → Reach Parts (created b)
  inserts :
      (e : Element) → Reach Parts e → e.is_connected ≡ false → Reach Parts (connected_callback e)
  removes :
      (e : Element) → Reach Parts e → e.is_connected ≡ true → Reach Parts (disconnected_callback e)
  renders :
      (e : Element) (b : Bool) → Reach Parts e → Parts b → Reach Parts (record e { has_parts = b })
  runs :
      (e : Element) (t : Microtask) (ts : List Microtask)
      → Reach Parts e
      → e.queue ≡ t ∷ ts
      → Reach Parts (run t (record e { queue = ts }))
