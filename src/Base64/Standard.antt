-- ===== src/Base64/Standard.antt =====
-- The base64 of RFC 4648, to show that the hypotheses on the browser's `atob` and `btoa` can hold.
use mathlib.Core.Option
use oxidt_kit.Kit.{
  ℕ, zero, suc, ◌+◌, ◌-◌, ◌*◌, ◌/◌, ◌%◌, ◌<◌, ◌≡◌, refl, ap, ◌∙◌, Text, Option, none, some, List,
  [], ◌∷◌, ◌++◌, ◌==◌, ltb, length, if◌then◌else◌, All, arith,
}
use oxidt_kit.Base64.{remove, repeat}
use oxidt_kit.Base64.RoundTrip.{IsPlain, IsBase64}

unfoldable pub char_of : ℕ → ℕ
char_of n =
    if ltb n 26
    then n + 65
    else if ltb n 52
    then n + 71
    else if ltb n 62
    then n - 4
    else if n == 62
    then b'+'
    else b'/'

value_of : ℕ → ℕ
value_of c =
    if c == b'+'
    then 62
    else if c == b'/'
    then 63
    else if ltb c 58
    then c + 4
    else if ltb c 91
    then c - 65
    else c - 71

value_of-char_of : (n : ℕ) → n < 64 → value_of (char_of n) ≡ n
unfolding value_of char_of
value_of-char_of n h = ground arith

char_of-IsPlain : (n : ℕ) → n < 64 → IsPlain (char_of n)
unfolding char_of
char_of-IsPlain n h = (λ e. ground arith, λ e. ground arith, λ e. ground arith)

unfoldable pub body : List ℕ → Text
body [] = []
body (a ∷ []) = char_of (a / 4) ∷ char_of (a % 4 * 16) ∷ []
body (a ∷ b ∷ []) = char_of (a / 4) ∷ char_of (a % 4 * 16 + b / 16) ∷ char_of (b % 16 * 4) ∷ []
body (a ∷ b ∷ c ∷ r) =
    char_of (a / 4)
    ∷ char_of (a % 4 * 16 + b / 16)
    ∷ char_of (b % 16 * 4 + c / 64)
    ∷ char_of (c % 64)
    ∷ body r

unfoldable pub btoa : List ℕ → Text
unfolding body repeat
btoa bytes = body bytes ++ repeat b'=' ((4 - length (body bytes) % 4) % 4)

first : ℕ → ℕ → ℕ
first w x = w * 4 + x / 16

second : ℕ → ℕ → ℕ
second x y = x % 16 * 16 + y / 4

third : ℕ → ℕ → ℕ
third y z = y % 4 * 64 + z

decode : Text → Option (List ℕ)
decode [] = some []
decode (w ∷ []) = none
decode (w ∷ x ∷ []) = some (first (value_of w) (value_of x) ∷ [])
decode (w ∷ x ∷ y ∷ []) =
    some (first (value_of w) (value_of x) ∷ second (value_of x) (value_of y) ∷ [])
decode (w ∷ x ∷ y ∷ z ∷ r) =
    Option.map
      (λ rest.
        first (value_of w) (value_of x)
        ∷ second (value_of x) (value_of y)
        ∷ third (value_of y) (value_of z)
        ∷ rest)
      (decode r)

pub atob : Text → Option (List ℕ)
atob s = decode (remove b'=' s)

decode-body : (bytes : List ℕ) → All (λ c. c < 256) bytes → decode (body bytes) ≡ some bytes
unfolding decode body first second third
decode-body [] h = refl
decode-body (a ∷ []) h =
    rw (value_of-char_of (a / 4) (omega arith), value_of-char_of (a % 4 * 16) (omega arith))
      (ap some (ground arith))
decode-body (a ∷ b ∷ []) h =
    rw
      (
        value_of-char_of (a / 4) (omega arith),
        value_of-char_of (a % 4 * 16 + b / 16) (omega arith),
        value_of-char_of (b % 16 * 4) (omega arith),
      )
      (ground arith)
decode-body (a ∷ b ∷ c ∷ r) h =
    rw
      (
        value_of-char_of (a / 4) (omega arith),
        value_of-char_of (a % 4 * 16 + b / 16) (omega arith),
        value_of-char_of (b % 16 * 4 + c / 64) (omega arith),
        value_of-char_of (c % 64) (omega arith),
        decode-body r h.1.1.1,
      )
      (ground arith)

body-IsPlain : (bytes : List ℕ) → All (λ c. c < 256) bytes → All IsPlain (body bytes)
unfolding body
body-IsPlain [] h = tt
body-IsPlain (a ∷ []) h = (char_of-IsPlain _ (omega arith), (char_of-IsPlain _ (omega arith), tt))
body-IsPlain (a ∷ b ∷ []) h = (
  char_of-IsPlain _ (omega arith),
  (char_of-IsPlain _ (omega arith), (char_of-IsPlain _ (omega arith), tt)),
)
body-IsPlain (a ∷ b ∷ c ∷ r) h = (
  char_of-IsPlain _ (omega arith),
  (
    char_of-IsPlain _ (omega arith),
    (char_of-IsPlain _ (omega arith), (char_of-IsPlain _ (omega arith), body-IsPlain r h.1.1.1)),
  ),
)

remove-padding : (s : Text) (n : ℕ) → All IsPlain s → remove b'=' (s ++ repeat b'=' n) ≡ s
unfolding remove repeat
remove-padding [] zero h = refl
remove-padding [] (suc n) h = remove-padding [] n tt
remove-padding (c ∷ s) n h = ground (arith, remove-padding s n h.1)

pub atob-btoa-IsBase64 : IsBase64 atob btoa
unfolding atob btoa
atob-btoa-IsBase64 = record {
  body = body;
  plain = body-IsPlain;
  padded = λ bytes small. refl;
  inverse = λ bytes small.
      ap decode (remove-padding (body bytes) _ (body-IsPlain bytes small))
      ∙ decode-body bytes small;
}
