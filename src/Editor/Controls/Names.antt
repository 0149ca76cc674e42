-- ===== src/Editor/Controls/Names.antt =====
-- What the visible textbox tells assistive technology.
use oxidt_kit.Kit.{
  ◌≡◌, refl, ◌==◌, Bool, true, Text, nonempty, codes, Option, none, some, List, [], ◌∷◌, ◌++◌,
  if◌then◌else◌, arith, ℕ,
}
use oxidt_kit.Editor.Controls.{
  Field, Attribute, label, multiline, spellcheck, labelledby, describedby, invalid, is_required,
  or_else, trimmed, accessible_name, attribute_of, content_attributes,
}

-- The value of an attribute of the textbox.
abbrev index : Attribute → ℕ
index label = 0
index multiline = 1
index spellcheck = 2
index labelledby = 3
index describedby = 4
index invalid = 5
index is_required = 6

abbrev pub value_of : Attribute → List (Attribute × Text) → Option Text
value_of a [] = none
value_of a ((b, t) ∷ m) = let rest = value_of a m in if index a == index b then some t else rest

or_else-nonempty : (o : Option Text) (d : Text) → nonempty d ≡ true → nonempty (or_else o d) ≡ true
or_else-nonempty none d h = h
or_else-nonempty (some t) d h = ground arith

pub accessible_name-nonempty : (f : Field) → nonempty (accessible_name f) ≡ true
unfolding accessible_name
accessible_name-nonempty f =
    or_else-nonempty f.aria_label _
      (or_else-nonempty (trimmed f.label_text) (codes "Markdown") refl)

-- What the textarea describes: the attributes that it need not have.
abbrev described : Option Text → Option Text → Option Text → Bool → List (Attribute × Text)
described l d i r =
    attribute_of labelledby l
    ++ (attribute_of describedby d
        ++ (attribute_of invalid i ++ (if r then (is_required, codes "true") ∷ [] else [])))

described_lem :
    (l d i : Option Text) (r : Bool)
    → (value_of labelledby (described l d i r) ≡ l)
      × (value_of describedby (described l d i r) ≡ d)
      × (value_of invalid (described l d i r) ≡ i)
      × (value_of is_required (described l d i r) ≡ (if r then some (codes "true") else none))
described_lem l d i r = ground arith

-- The textbox always has a name, which is not empty, and it takes what describes it from the
-- textarea: each of `aria-labelledby`, `aria-describedby` and `aria-invalid` where the textarea has
-- it, with its value, and `aria-required` where the field is required.
pub content_attributes_lem :
    (f : Field)
    → (nonempty (accessible_name f) ≡ true)
      × (value_of label (content_attributes f) ≡ some (accessible_name f))
      × (value_of labelledby (content_attributes f) ≡ f.aria_labelledby)
      × (value_of describedby (content_attributes f) ≡ f.aria_describedby)
      × (value_of invalid (content_attributes f) ≡ f.aria_invalid)
      × (value_of is_required (content_attributes f)
          ≡ (if f.required then some (codes "true") else none))
unfolding content_attributes
content_attributes_lem f =
    let d = described_lem f.aria_labelledby f.aria_describedby f.aria_invalid f.required in
    (accessible_name-nonempty f, refl, d.0, d.1, d.2, d.3)
