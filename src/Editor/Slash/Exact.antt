-- ===== src/Editor/Slash/Exact.antt =====
-- Exactly when the menu of `slashSource` opens, and with what.
use oxidt_kit.Kit.{
  ℕ, ◌≡◌, ◌≢◌, ◌≤◌, ◌⊎◌, ◌↔◌, inl, inr, refl, sym, ap, subst, ◌∙◌, arith, Bool, Bool-cases, true,
  false, Text, starts_with, nonempty, some, List, [], ◌∷◌, ◌++◌, All,
}
use oxidt_kit.Editor.Document.{Name, fenced_code, code_block, html_block, inline_code}
use oxidt_kit.Editor.Slash.{
  Command, Context, Completions, is_slug, all_slug, is_slash_word, is_literal, in_literal, matching,
  takes_command, slash_source,
}

-- A small letter, a digit or the minus sign.
abbrev pub IsLetter : ℕ → Type 0
IsLetter c = ((97 ≤ c) × (c ≤ 122)) ⊎ ((48 ≤ c) × (c ≤ 57)) ⊎ (c ≡ 45)

-- Neither a fence, an indented block of code, a block of HTML, nor code within a line.
pub record IsProse (n : Name) : Type 0 where
  pub no_fence : n ≢ fenced_code
  pub no_block : n ≢ code_block
  pub no_html : n ≢ html_block
  pub no_code : n ≢ inline_code

-- The editor takes edits and has one empty selection; the position is the end of its line, which is
-- a slash and letters; and every node around the position is prose.
pub record Opens (x : Context) : Type 0 where
  pub writable : x.read_only ≡ false
  pub enabled : x.editable ≡ true
  pub single : x.other_ranges ≡ []
  pub empty : x.main.from ≡ x.main.to
  pub at_end : x.pos ≡ (x.doc.line_at x.pos).to
  pub word : Text
  pub slash_word : (x.doc.line_at x.pos).text ≡ 47 ∷ word
  pub letters : All IsLetter word
  pub prose : All IsProse (x.enclosing x.pos)

-- The second list has, in their order, those commands of the first whose label begins with the text.
pub data Offered (t : Text) : List Command → List Command → Type 0 where
  done : Offered t [] []
  keeps :
      {c : Command} {cs os : List Command} (rest : Text)
      → c.label ≡ t ++ rest
      → Offered t cs os
      → Offered t (c ∷ cs) (c ∷ os)
  skips :
      {c : Command} {cs os : List Command}
      → ((rest : Text) → c.label ≢ t ++ rest)
      → Offered t cs os
      → Offered t (c ∷ cs) os

apart : {b : Bool} → b ≡ true → b ≢ false
apart set unset = ground arith

starts_with-rest : (l t : Text) → starts_with l t ≡ true → (rest : Text) × (l ≡ t ++ rest)
starts_with-rest l [] e = (l, refl)
starts_with-rest [] (x ∷ t) e = ground arith
starts_with-rest (a ∷ l) (x ∷ t) e =
    let (rest, r) = starts_with-rest l t (ground arith) in
    (rest, ap (λ m. a ∷ m) r ∙ ap (λ y. y ∷ t ++ rest) (ground arith))

starts_with-append : (t rest : Text) → starts_with (t ++ rest) t ≡ true
starts_with-append [] rest = refl
starts_with-append (x ∷ t) rest = ground (arith, starts_with-append t rest)

matching-Offered : (t : Text) (cs : List Command) → Offered t cs (matching t cs)
unfolding matching
matching-Offered t [] = done
matching-Offered t (c ∷ cs) = elim (Bool-cases (starts_with c.label t)) [
  | inl fits ↦
      let (rest, r) = starts_with-rest c.label t fits in
      rw fits (keeps rest r (matching-Offered t cs))
  | inr not_so ↦ rw not_so (
      skips (λ rest r. apart (ap (λ l. starts_with l t) r ∙ starts_with-append t rest) not_so)
        (matching-Offered t cs))
]

Offered-matching : {t : Text} {cs os : List Command} → Offered t cs os → os ≡ matching t cs
unfolding matching
Offered-matching done = refl
Offered-matching {t} (keeps rest r o) =
    rw (ap (λ l. starts_with l t) r ∙ starts_with-append t rest, ← Offered-matching o) refl
Offered-matching {t} (skips {c} {cs} away o) = elim (Bool-cases (starts_with c.label t)) [
  | inl fits ↦ let (rest, r) = starts_with-rest c.label t fits in absurd (away rest r)
  | inr not_so ↦ rw (not_so, ← Offered-matching o) refl
]

is_slug-IsLetter : (c : ℕ) → is_slug c ≡ true → IsLetter c
is_slug-IsLetter c e = ground arith

IsLetter-is_slug : (c : ℕ) → IsLetter c → is_slug c ≡ true
IsLetter-is_slug c h = ground arith

all_slug-letters : (t : Text) → all_slug t ≡ true → All IsLetter t
all_slug-letters [] e = tt
all_slug-letters (c ∷ t) e = (is_slug-IsLetter c (ground arith), all_slug-letters t (ground arith))

letters-all_slug : (t : Text) → All IsLetter t → all_slug t ≡ true
letters-all_slug [] h = refl
letters-all_slug (c ∷ t) h = rw (IsLetter-is_slug c h.0) (letters-all_slug t h.1)

word_of : (t : Text) → is_slash_word t ≡ true → (w : Text) × (t ≡ 47 ∷ w) × All IsLetter w
word_of [] e = ground arith
word_of (c ∷ t) e = (t, ap (λ x. x ∷ t) (ground arith), all_slug-letters t (ground arith))

is_literal-IsProse : (n : Name) → is_literal n ≡ false → IsProse n
is_literal-IsProse n e = record {
  no_fence = λ r. ground (arith, sym e ∙ ap is_literal r);
  no_block = λ r. ground (arith, sym e ∙ ap is_literal r);
  no_html = λ r. ground (arith, sym e ∙ ap is_literal r);
  no_code = λ r. ground (arith, sym e ∙ ap is_literal r);
}

IsProse-is_literal : (n : Name) → IsProse n → is_literal n ≡ false
IsProse-is_literal fenced_code h = absurd (h.no_fence refl)
IsProse-is_literal code_block h = absurd (h.no_block refl)
IsProse-is_literal html_block h = absurd (h.no_html refl)
IsProse-is_literal inline_code h = absurd (h.no_code refl)
IsProse-is_literal _ h = refl

in_literal-IsProse : (ns : List Name) → in_literal ns ≡ false → All IsProse ns
in_literal-IsProse [] e = tt
in_literal-IsProse (n ∷ ns) e =
    (is_literal-IsProse n (ground arith), in_literal-IsProse ns (ground arith))

IsProse-in_literal : (ns : List Name) → All IsProse ns → in_literal ns ≡ false
IsProse-in_literal [] h = refl
IsProse-in_literal (n ∷ ns) h = rw (IsProse-is_literal n h.0) (IsProse-in_literal ns h.1)

nonempty-some : {A : Type 0} (xs : List A) → nonempty xs ≡ true → xs ≢ []
nonempty-some xs e r = apart e (ap nonempty r)

some-nonempty : {A : Type 0} (xs : List A) → xs ≢ [] → nonempty xs ≡ true
some-nonempty [] h = absurd (h refl)
some-nonempty (x ∷ xs) h = refl

nonempty-nil : {A : Type 0} (xs : List A) → nonempty xs ≡ false → xs ≡ []
nonempty-nil [] e = refl
nonempty-nil (x ∷ xs) e = ground arith

-- The program's tests, all passed.
abbrev Passes : List Command → Context → Completions → Type 0
Passes cs x r =
    (takes_command x ≡ true)
    × (x.pos ≡ (x.doc.line_at x.pos).to)
    × (is_slash_word (x.doc.line_at x.pos).text ≡ true)
    × (in_literal (x.enclosing x.pos) ≡ false)
    × (r.from ≡ (x.doc.line_at x.pos).from)
    × (r.options ≡ matching (x.doc.line_at x.pos).text cs)
    × (nonempty r.options ≡ true)

slash_source-Passes :
    (cs : List Command) (x : Context) (r : Completions) → slash_source cs x ≡ some r → Passes cs x r
unfolding slash_source
slash_source-Passes cs x r e = ground arith

Passes-slash_source :
    (cs : List Command) (x : Context) (r : Completions) → Passes cs x r → slash_source cs x ≡ some r
unfolding slash_source
Passes-slash_source cs x r (takes, at_end, word, prose, same, offered, some_) = ground arith

Passes-Opens : (cs : List Command) (x : Context) (r : Completions) → Passes cs x r → Opens x
Passes-Opens cs x r (takes, at_end, word, prose, _, _, _) =
    let (w, starts, letters) = word_of (x.doc.line_at x.pos).text word in
    record {
      writable = ground arith;
      enabled = ground arith;
      single = nonempty-nil x.other_ranges (ground arith);
      empty = ground arith;
      at_end = at_end;
      word = w;
      slash_word = starts;
      letters = letters;
      prose = in_literal-IsProse (x.enclosing x.pos) prose;
    }

Opens-takes : (x : Context) → Opens x → takes_command x ≡ true
Opens-takes x h = rw (h.writable, h.enabled, h.single) (ground (arith, h.empty))

Opens-word : (x : Context) → Opens x → is_slash_word (x.doc.line_at x.pos).text ≡ true
Opens-word x h = rw h.slash_word (letters-all_slug h.word h.letters)

-- The menu opens just when the editor takes edits (it is editable, not read-only, and its one
-- selection is empty), the position is the end of a line that is a slash and small letters, digits
-- or minus signs, no node around the position is a fence, a code block, an HTML block or inline code
-- (tags of HTML within a line are not asked about), and some command's label begins with the line.
-- It then replaces from the line's start, and offers those commands, all of them, in their order.
pub slash_source_lem :
    (cs : List Command) (x : Context) (r : Completions)
    → (slash_source cs x ≡ some r) ↔ (
        Opens x
        × (r.from ≡ (x.doc.line_at x.pos).from)
        × Offered (x.doc.line_at x.pos).text cs r.options
        × (r.options ≢ []))
slash_source_lem cs x r = (
  λ e.
      let h = slash_source-Passes cs x r e in
      let (takes, at_end, word, prose, same, offered, some_) = h in
      (
        Passes-Opens cs x r h,
        same,
        subst (Offered (x.doc.line_at x.pos).text cs) (sym offered) (matching-Offered _ cs),
        nonempty-some r.options some_,
      ),
  λ (opens, same, offered, some_). Passes-slash_source cs x r (
    Opens-takes x opens,
    opens.at_end,
    Opens-word x opens,
    IsProse-in_literal _ opens.prose,
    same,
    Offered-matching offered,
    some-nonempty r.options some_,
  ),
)
