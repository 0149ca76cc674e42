-- ===== src/Editor/Mount/Texts.antt =====
-- Texts whose newlines are normal, and pieces of a text.
use mathlib.Core.Logic.{◌≢◌}
use oxidt_kit.Kit.{
  ℕ, zero, suc, ◌+◌, ◌≡◌, refl, ap, [], ◌∷◌, ◌++◌, Text, All, All-append, length, take, arith,
}
use oxidt_kit.Editor.Mount.{drop}

-- No carriage return.
abbrev pub IsClean : Text → Type 0
IsClean t = All (λ c. c ≢ 13) t

-- What the HTML standard and CodeMirror ask: a carriage return, with or without the line feed after
-- it, becomes a line feed, and nothing else changes.
pub record IsNormal (normal : Text → Text) : Type 0 where
  pub clean : (t : Text) → IsClean (normal t)
  pub fixes : (t : Text) → IsClean t → normal t ≡ t

pub take-IsClean : (n : ℕ) (t : Text) → IsClean t → IsClean (take n t)
take-IsClean zero t h = tt
take-IsClean (suc n) [] h = tt
take-IsClean (suc n) (x ∷ t) h = (h.0, take-IsClean n t h.1)

pub drop-IsClean : (n : ℕ) (t : Text) → IsClean t → IsClean (drop n t)
drop-IsClean zero t h = h
drop-IsClean (suc n) [] h = tt
drop-IsClean (suc n) (x ∷ t) h = drop-IsClean n t h.1

pub append-IsClean : (s t : Text) → IsClean s → IsClean t → IsClean (s ++ t)
append-IsClean s t h g = All-append (λ c. c ≢ 13) s t h g

pub take-drop : (n : ℕ) (t : Text) → take n t ++ drop n t ≡ t
take-drop zero t = refl
take-drop (suc n) [] = refl
take-drop (suc n) (x ∷ t) = ap (λ u. x ∷ u) (take-drop n t)

pub drop-length : (t : Text) → drop (length t) t ≡ []
drop-length [] = refl
drop-length (x ∷ t) = drop-length t

pub append_empty : (t : Text) → t ++ [] ≡ t
append_empty [] = refl
append_empty (x ∷ t) = ap (λ u. x ∷ u) (append_empty t)

pub take-length : (t : Text) → take (length t) t ≡ t
take-length [] = refl
take-length (x ∷ t) = ap (λ u. x ∷ u) (take-length t)

pub length-append : (s t : Text) → length (s ++ t) ≡ length s + length t
length-append [] t = omega arith
length-append (x ∷ s) t = omega (arith, length-append s t)
