-- ===== src/Kit/Strings.antt =====
-- The text methods that the scripts call. A text is the list of its UTF-16 code units; the
-- messages, which the scripts write as literals, are native strings, read through `codes`.
use Prim.Native.Nat.{ℕ, ◌+◌}
use Prim.Native.Char.{code}
use Prim.Native.String.{String}
use mathlib.Core.Path.{◌≡◌, refl}
use mathlib.Core.Bool.{Bool, true, false, ◌&&◌, ◌||◌}
use mathlib.Core.List.{List, [], ◌∷◌, map}
use native.Mathlib.Omega.{arith}
use oxidt_kit.Kit.Tests.{ltb, leb, ◌==◌, if◌then◌else◌}

abbrev pub Text : Type 0
Text = List ℕ

abbrev pub codes : String → List ℕ
codes String.[] = []
codes (String.◌∷◌ c s) = code c ∷ codes s

-- A string is truthy when it is not empty.
abbrev pub nonempty {ℓ} : {A : Type ℓ} → List A → Bool
nonempty [] = false
nonempty (x ∷ xs) = true

abbrev pub nonempty_string : String → Bool
nonempty_string String.[] = false
nonempty_string (String.◌∷◌ c s) = true

abbrev pub starts_with : Text → Text → Bool
starts_with t [] = true
starts_with [] (x ∷ xs) = false
starts_with (a ∷ t) (x ∷ xs) = (a == x) && starts_with t xs

-- `t.includes(s)`.
unfoldable pub includes : Text → Text → Bool
includes [] s = starts_with [] s
includes (a ∷ t) s = starts_with (a ∷ t) s || includes t s

-- The white space and line terminators of ECMAScript.
abbrev pub is_space : ℕ → Bool
is_space c =
    (leb 9 c && leb c 13)
    || (c == 32)
    || (c == 160)
    || (c == 5760)
    || (leb 8192 c && leb c 8202)
    || (c == 8232)
    || (c == 8233)
    || (c == 8239)
    || (c == 8287)
    || (c == 12288)
    || (c == 65279)

trim_start : Text → Text
trim_start [] = []
trim_start (c ∷ t) = let rest = trim_start t in if is_space c then rest else c ∷ t

-- Drops `c` before an end that is all white space.
abbrev cons_trimmed : ℕ → Text → Text
cons_trimmed c [] = if is_space c then [] else c ∷ []
cons_trimmed c (d ∷ t) = c ∷ d ∷ t

trim_end : Text → Text
trim_end [] = []
trim_end (c ∷ t) = cons_trimmed c (trim_end t)

unfoldable pub trim : Text → Text
unfolding trim_start trim_end
trim t = trim_end (trim_start t)

abbrev is_ascii : Text → Bool
is_ascii [] = true
is_ascii (c ∷ t) = ltb c 128 && is_ascii t

abbrev ascii_lower : ℕ → ℕ
ascii_lower c = if leb 65 c && leb c 90 then c + 32 else c

-- `toLowerCase`. The tables of Unicode for other texts are an argument.
unfoldable pub to_lower_case : (Text → Text) → Text → Text
to_lower_case unicode t = if is_ascii t then map ascii_lower t else unicode t

trim_test : trim (codes "  a b \n") ≡ codes "a b"
unfolding trim
trim_test = refl

lower_test : to_lower_case (λ t. t) (codes "Ann@X.io") ≡ codes "ann@x.io"
unfolding to_lower_case
lower_test = refl

includes_test : includes (codes "it was cancelled.") (codes "cancelled") ≡ true
unfolding includes
includes_test = refl

abbrev pub text_eq : Text → Text → Bool
text_eq [] [] = true
text_eq (a ∷ s) (b ∷ t) = (a == b) && text_eq s t
text_eq _ _ = false

pub text_eq_sound : (s t : Text) → text_eq s t ≡ true → s ≡ t
text_eq_sound [] [] h = refl
text_eq_sound [] (b ∷ t) h = ground arith
text_eq_sound (a ∷ s) [] h = ground arith
text_eq_sound (a ∷ s) (b ∷ t) h = grind (arith, text_eq_sound s t)

pub text_eq_refl : (s : Text) → text_eq s s ≡ true
text_eq_refl [] = refl
text_eq_refl (a ∷ s) = grind (arith, text_eq_refl s)
