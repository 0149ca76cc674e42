-- ===== src/Editor/Controls/Current.antt =====
-- The editor's configuration is the field's.
use oxidt_kit.Kit.{◌≡◌, refl, ◌⊎◌, inl, inr, Bool, true, arith, List, [], ◌∷◌, ◌++◌}
use oxidt_kit.Editor.Controls.{
  Field, controlled, Target, the_field, a_fieldset, another, is_relevant, is_any_relevant, Mounted,
  Change, attribute_changes, fieldset_changes, other_changes, on_records, mount_controls,
}

-- What can happen but for a move of the field.
pub data Step : Mounted → Mounted → Type 0 where
  attributes : (c : Change) (m : Mounted) → Step m (attribute_changes c m)
  fieldsets : (bs : List Bool) (m : Mounted) → Step m (fieldset_changes bs m)
  others : (m : Mounted) → Step m (other_changes m)
  runs : (m : Mounted) → Step m (on_records m)

pub data Reach : Mounted → Type 0 where
  start : (f : Field) → Reach (mount_controls f)
  next : {m n : Mounted} → Reach m → Step m n → Reach n

-- Up to date, or about to be.
abbrev IsCurrent : Mounted → Type 0
IsCurrent m = (is_any_relevant m.records ≡ true) ⊎ (m.config ≡ controlled m.field)

relevant-last :
    (ts : List Target) (t : Target) → is_relevant t ≡ true → is_any_relevant (ts ++ t ∷ []) ≡ true
relevant-last [] t h = ground arith
relevant-last (u ∷ ts) t h = ground (arith, relevant-last ts t h)

relevant-kept :
    (ts : List Target) (t : Target)
    → is_any_relevant ts ≡ true
    → is_any_relevant (ts ++ t ∷ []) ≡ true
relevant-kept [] t h = ground arith
relevant-kept (u ∷ ts) t h = ground (arith, relevant-kept ts t)

on_records-IsCurrent :
    (m : Mounted) → IsCurrent m → (on_records m).config ≡ controlled (on_records m).field
unfolding on_records
on_records-IsCurrent m (inl h) = rw h refl
on_records-IsCurrent m (inr h) = ground arith

Step-IsCurrent : {m n : Mounted} → Step m n → IsCurrent m → IsCurrent n
unfolding attribute_changes fieldset_changes other_changes
Step-IsCurrent (attributes c m) h = inl (relevant-last m.records the_field refl)
Step-IsCurrent (fieldsets bs m) h = inl (relevant-last m.records a_fieldset refl)
Step-IsCurrent (others m) (inl h) = inl (relevant-kept m.records another h)
Step-IsCurrent (others m) (inr h) = inr h
Step-IsCurrent (runs m) h = inr (on_records-IsCurrent m h)

Reach-IsCurrent : {m : Mounted} → Reach m → IsCurrent m
unfolding mount_controls
Reach-IsCurrent (start f) = inr refl
Reach-IsCurrent (next r s) = Step-IsCurrent s (Reach-IsCurrent r)

-- Unless the field is moved, the editor is configured by the textarea as it is, its lock, its
-- placeholder and its accessible description, once the observer has run for what was recorded,
-- whatever attributes of the textarea, of fieldsets and of other elements change in which order.
pub config-controlled :
    {m : Mounted} → Reach m → (on_records m).config ≡ controlled (on_records m).field
config-controlled {m} r = on_records-IsCurrent m (Reach-IsCurrent r)
