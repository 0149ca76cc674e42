-- ===== src/Editor/Controls.antt =====
-- The compartment `controls` of `mountEditor`: what the editor takes from the textarea's attributes,
-- and the observer that takes it again when they change. The page's records of changed attributes
-- are queued for the observer; which of them it is told about is its attributeFilter's.
pub mod Current
pub mod Names
mod Examples
use oxidt_kit.Kit.{
  Bool, true, false, not, ◌||◌, Text, nonempty, codes, trim, Option, none, some, List, [], ◌∷◌,
  ◌++◌, if◌then◌else◌,
}

-- The textarea's attributes, the text of its first label, and for each fieldset that can disable it
-- whether that fieldset is disabled.
pub record Field : Type 0 where
  pub disabled : Bool
  pub fieldsets : List Bool
  pub read_only : Bool
  pub placeholder : Text
  pub required : Bool
  pub aria_label : Option Text
  pub aria_labelledby : Option Text
  pub aria_describedby : Option Text
  pub aria_invalid : Option Text
  pub label_text : Option Text  -- labels[0]?.textContent; none without labels

pub data Attribute : Type 0 where
  label multiline spellcheck labelledby describedby invalid is_required : Attribute

-- What `controlled` returns.
pub record Controls : Type 0 where
  pub read_only : Bool
  pub editable : Bool
  pub placeholder : Text
  pub attributes : List (Attribute × Text)

abbrev pub any_disabled : List Bool → Bool
any_disabled [] = false
any_disabled (b ∷ bs) = b || any_disabled bs

-- `textarea.matches(":disabled") || textarea.readOnly`.
unfoldable pub locked : Field → Bool
locked f = (f.disabled || any_disabled f.fieldsets) || f.read_only

-- `a || b` of two texts, the first of which may be missing.
abbrev pub or_else : Option Text → Text → Text
or_else none d = d
or_else (some t) d = if nonempty t then t else d

abbrev pub trimmed : Option Text → Option Text
trimmed none = none
trimmed (some t) = some (trim t)

-- `textarea.getAttribute("aria-label") || labels[0]?.textContent.trim() || "Markdown"`.
unfoldable pub accessible_name : Field → Text
accessible_name f = or_else f.aria_label (or_else (trimmed f.label_text) (codes "Markdown"))

abbrev pub attribute_of : Attribute → Option Text → List (Attribute × Text)
attribute_of a none = []
attribute_of a (some t) = (a, t) ∷ []

unfoldable pub content_attributes : Field → List (Attribute × Text)
unfolding accessible_name
content_attributes f =
    (label, accessible_name f)
      ∷ (multiline, codes "true")
      ∷ (spellcheck, codes "true")
      ∷ attribute_of labelledby f.aria_labelledby
    ++ (attribute_of describedby f.aria_describedby
        ++ (attribute_of invalid f.aria_invalid
            ++ (if f.required then (is_required, codes "true") ∷ [] else [])))

unfoldable pub controlled : Field → Controls
unfolding locked content_attributes
controlled f = record {
  read_only = locked f;
  editable = not (locked f);
  placeholder = f.placeholder;
  attributes = content_attributes f;
}

-- The target of a record.
pub data Target : Type 0 where
  the_field a_fieldset another : Target

abbrev pub is_relevant : Target → Bool
is_relevant another = false
is_relevant _ = true

abbrev pub is_any_relevant : List Target → Bool
is_any_relevant [] = false
is_any_relevant (t ∷ ts) = is_relevant t || is_any_relevant ts

pub record Mounted : Type 0 where
  pub field : Field
  pub config : Controls  -- of the editor
  pub records : List Target  -- queued for `observer`

-- The two `observe` calls: attributes of the textarea, and `disabled` anywhere on the page.
pub data Change : Type 0 where
  set_disabled set_read_only set_required : Bool → Change
  set_placeholder : Text → Change
  set_label set_labelledby set_describedby set_invalid : Option Text → Change

abbrev pub change : Change → Field → Field
change (set_disabled b) f = record f { disabled = b }
change (set_read_only b) f = record f { read_only = b }
change (set_required b) f = record f { required = b }
change (set_placeholder t) f = record f { placeholder = t }
change (set_label o) f = record f { aria_label = o }
change (set_labelledby o) f = record f { aria_labelledby = o }
change (set_describedby o) f = record f { aria_describedby = o }
change (set_invalid o) f = record f { aria_invalid = o }

abbrev pub recorded : Target → Mounted → Mounted
recorded t m = record m { records = m.records ++ t ∷ [] }

unfoldable pub attribute_changes : Change → Mounted → Mounted
attribute_changes c m = recorded the_field (record m { field = change c m.field })

-- A fieldset around the field, or elsewhere on the page, is disabled or enabled.
unfoldable pub fieldset_changes : List Bool → Mounted → Mounted
fieldset_changes bs m = recorded a_fieldset (record m { field = record m.field { fieldsets = bs } })

-- `disabled` of another element changes.
unfoldable pub other_changes : Mounted → Mounted
other_changes m = recorded another m

-- The callback of `observer`.
unfoldable pub on_records : Mounted → Mounted
unfolding controlled
on_records m =
    let done = record m { records = [] } in
    if is_any_relevant m.records then record done { config = controlled m.field } else done

-- `controls.of(controlled())` at the mounting.
unfoldable pub mount_controls : Field → Mounted
unfolding controlled
mount_controls f = record { field = f; config = controlled f; records = [] }
