-- ===== src/Editor/Slash/Labels.antt =====
-- `commandLabels` of markdown-editor.js, and the menu that slash-commands.js makes of the labels.
-- `JSON.parse` is a parameter.
use oxidt_kit.Kit.{
  ℕ, ◌≡◌, refl, true, Text, String, nonempty, Bool-cases, inl, inr, nonempty_string, codes, Option,
  none, some, List, [], ◌∷◌, map, All, if◌then◌else◌,
}
use oxidt_kit.Browser.Http.{Value, undefined, null, object, boolean, number, string}
use oxidt_kit.Editor.Slash.{Default, defaults, Command, property, shown_label, command, commands}

-- What a text parses to. The entries of an array have numbers as keys, none of which is a command's
-- name.
pub data Json : Type 0 where
  fields : List (String × Value) → Json
  items : List Value → Json
  scalar : Value → Json

-- `labels && typeof labels === "object" ? labels : {}`; `{}` where `parse` throws.
abbrev pub labels_of : Option Json → List (String × Value)
labels_of none = []
labels_of (some (fields m)) = m
labels_of (some (items vs)) = []
labels_of (some (scalar v)) = []

-- `textarea.dataset.labels || "{}"`.
abbrev pub labels_text : Option Text → Text
labels_text none = codes "{}"
labels_text (some t) = if nonempty t then t else codes "{}"

unfoldable pub command_labels : (Text → Option Json) → Option Text → List (String × Value)
command_labels parse data_labels = labels_of (parse (labels_text data_labels))

-- A command without the label that the menu shows beside it.
abbrev pub inserted : Command → Text × Text × ℕ
inserted c = (c.label, c.insert, c.cursor)

inserted-command :
    (m : List (String × Value)) (ds : List Default)
    → map inserted (map (command m) ds) ≡ map inserted (map (command []) ds)
unfolding command
inserted-command m [] = refl
inserted-command m (d ∷ ds) = rw (inserted-command m ds) refl

abbrev HasDetail : Command → Type 0
HasDetail c = nonempty_string c.detail ≡ true

shown_label-nonempty :
    (o : Option Value) (d : String)
    → nonempty_string d ≡ true
    → nonempty_string (shown_label o d) ≡ true
shown_label-nonempty none d h = h
shown_label-nonempty (some undefined) d h = h
shown_label-nonempty (some null) d h = h
shown_label-nonempty (some object) d h = h
shown_label-nonempty (some (boolean b)) d h = h
shown_label-nonempty (some (number n)) d h = h
shown_label-nonempty (some (string s)) d h = elim (Bool-cases (nonempty_string s)) [
  | inl full ↦ rw full full
  | inr empty ↦ rw empty h
]

details-nonempty :
    (m : List (String × Value)) (ds : List Default)
    → All (λ (d : Default). nonempty_string d.detail ≡ true) ds
    → All HasDetail (map (command m) ds)
unfolding command
details-nonempty m [] h = tt
details-nonempty m (d ∷ ds) h =
    (shown_label-nonempty (property d.name m) d.detail h.0, details-nonempty m ds h.1)

-- Whatever `data-labels` holds, a text that is no JSON or JSON of any form, the menu has the same
-- commands, which insert the same texts and leave the cursor at the same places, and each of them
-- has a label beside it that is not empty.
pub commands-command_labels :
    (parse : Text → Option Json) (data_labels : Option Text)
    → let cs = commands (command_labels parse data_labels) in
      (map inserted cs ≡ map inserted (commands []))
      × All (λ (c : Command). nonempty_string c.detail ≡ true) cs
unfolding commands
commands-command_labels parse data_labels =
    let m = command_labels parse data_labels in
    (
      inserted-command m defaults,
      details-nonempty m defaults
          (refl, (refl, (refl, (refl, (refl, (refl, (refl, (refl, (refl, tt))))))))),
    )
