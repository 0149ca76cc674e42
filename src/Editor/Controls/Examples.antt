-- ===== src/Editor/Controls/Examples.antt =====
-- A required field with a label of white space, and what becomes of its editor.
use oxidt_kit.Kit.{◌≡◌, true, false, nonempty, codes, some, none, [], ◌∷◌, if◌then◌else◌}
use oxidt_kit.Editor.Controls.{
  Field, accessible_name, controlled, content_attributes, Mounted, set_disabled, label, labelledby,
  describedby, invalid, is_required, attribute_changes, other_changes, on_records, mount_controls,
}
use oxidt_kit.Editor.Controls.Current.{attributes, others, start, next, config-controlled}
use oxidt_kit.Editor.Controls.Names.{value_of, content_attributes_lem}

abbrev notes : Field
notes = record {
  disabled = false;
  fieldsets = false ∷ [];
  read_only = false;
  placeholder = codes "Notes";
  required = true;
  aria_label = some [];
  aria_labelledby = none;
  aria_describedby = some (codes "hint");
  aria_invalid = none;
  label_text = some (codes " ");
}

abbrev disabled_field : Mounted
disabled_field = other_changes (attribute_changes (set_disabled true) (mount_controls notes))

config-controlled_example :
    (on_records disabled_field).config ≡ controlled (on_records disabled_field).field
config-controlled_example = config-controlled (
    next (next (start notes) (attributes (set_disabled true) (mount_controls notes)))
      (others (attribute_changes (set_disabled true) (mount_controls notes))))

content_attributes_test :
    (nonempty (accessible_name notes) ≡ true)
    × (value_of label (content_attributes notes) ≡ some (accessible_name notes))
    × (value_of labelledby (content_attributes notes) ≡ notes.aria_labelledby)
    × (value_of describedby (content_attributes notes) ≡ notes.aria_describedby)
    × (value_of invalid (content_attributes notes) ≡ notes.aria_invalid)
    × (value_of is_required (content_attributes notes)
        ≡ (if notes.required then some (codes "true") else none))
content_attributes_test = content_attributes_lem notes
