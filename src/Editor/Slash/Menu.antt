-- ===== src/Editor/Slash/Menu.antt =====
-- Every command is within reach, and where the cursor goes.
use mathlib.Core.List.{Memᴰ}
use oxidt_kit.Kit.{
  ℕ, zero, suc, ◌+◌, ◌-◌, ap, sym, subst, ◌≤◌, ◌≡◌, refl, true, false, Bool-cases, inl, inr, Text,
  String, nonempty, codes, starts_with, length, take, some, List, [], ◌∷◌, map, All, arith,
}
use oxidt_kit.Browser.Http.{Value}
use oxidt_kit.Editor.Slash.{
  Default, defaults, Command, command, commands, Context, matching, Completions, takes_command,
  slash_source, is_slash_word, all_slug, in_literal, Transaction, apply,
}

matching-mem :
    (t : Text) (cs : List Command) (c : Command)
    → starts_with c.label t ≡ true
    → Memᴰ c cs
    → Memᴰ c (matching t cs)
unfolding matching
matching-mem t [] c fits m = elim m [ ]
matching-mem t (d ∷ cs) c fits (Memᴰ.head e) = rw (← e, fits) (Memᴰ.head refl)
matching-mem t (d ∷ cs) c fits (Memᴰ.tail m) = elim (Bool-cases (starts_with d.label t)) [
  | inl also ↦ rw also (Memᴰ.tail (matching-mem t cs c fits m))
  | inr not_so ↦ rw not_so (matching-mem t cs c fits m)
]

mem-map : {A B : Type 0} (f : A → B) (xs : List A) {a : A} → Memᴰ a xs → Memᴰ (f a) (map f xs)
mem-map f [] m = elim m [ ]
mem-map f (x ∷ xs) (Memᴰ.head e) = Memᴰ.head (ap f e)
mem-map f (x ∷ xs) (Memᴰ.tail m) = Memᴰ.tail (mem-map f xs m)

All-mem : {A : Type 0} (P : A → Type 0) (xs : List A) {a : A} → All P xs → Memᴰ a xs → P a
All-mem P [] h m = elim m [ ]
All-mem P (x ∷ xs) h (Memᴰ.head e) = subst P (sym e) h.0
All-mem P (x ∷ xs) h (Memᴰ.tail m) = All-mem P xs h.1 m

nonempty-mem : {A : Type 0} (xs : List A) {a : A} → Memᴰ a xs → nonempty xs ≡ true
nonempty-mem [] m = elim m [ ]
nonempty-mem (x ∷ xs) m = refl

starts_with-take : (n : ℕ) (t : Text) → starts_with t (take n t) ≡ true
starts_with-take zero t = refl
starts_with-take (suc n) [] = refl
starts_with-take (suc n) (c ∷ t) = ground (arith, starts_with-take n t)

all_slug-take : (n : ℕ) (t : Text) → all_slug t ≡ true → all_slug (take n t) ≡ true
all_slug-take zero t h = refl
all_slug-take (suc n) [] h = refl
all_slug-take (suc n) (c ∷ t) h = ground (arith, all_slug-take n t)

defaults-slug : All (λ d. all_slug (codes d.name) ≡ true) defaults
defaults-slug = (refl, (refl, (refl, (refl, (refl, (refl, (refl, (refl, (refl, tt)))))))))

-- Every command can be reached by typing, whatever the labels are. In an editor that takes edits (it
-- is editable, not read-only, and its one selection is empty), with the position at the end of its
-- line, no fence, code block, HTML block or inline code around it, and a line that is a beginning of
-- the command's label, the slash at least, the menu opens over the line's text and has the command.
pub slash_source_complete :
    (labels : List (String × Value)) (d : Default) (n : ℕ) (x : Context)
    → Memᴰ d defaults
    → takes_command x ≡ true
    → x.pos ≡ (x.doc.line_at x.pos).to
    → (x.doc.line_at x.pos).text ≡ take (suc n) (command labels d).label
    → in_literal (x.enclosing x.pos) ≡ false
    → (r : Completions) × (slash_source (commands labels) x ≡ some r)
      × (r.from ≡ (x.doc.line_at x.pos).from)
      × Memᴰ (command labels d) r.options
unfolding slash_source commands command
slash_source_complete labels d n x known takes at_end typed prose = (
  record { from = (x.doc.line_at x.pos).from; options = offered },
  ground (arith, word, nonempty-mem offered offers),
  refl,
  offers,
)
  where
    offered : List Command
    offered = matching (x.doc.line_at x.pos).text (commands labels)

    word : is_slash_word (x.doc.line_at x.pos).text ≡ true
    word = rw typed (
        all_slug-take n (codes d.name)
          (All-mem (λ d. all_slug (codes d.name) ≡ true) defaults defaults-slug known))

    offers : Memᴰ (command labels d) offered
    offers =
        matching-mem (x.doc.line_at x.pos).text (commands labels) (command labels d)
          (rw typed (starts_with-take (suc n) (command labels d).label))
          (mem-map (command labels) defaults known)

commands-cursor :
    (labels : List (String × Value)) → All (λ c. c.cursor ≤ length c.insert) (commands labels)
unfolding commands command
commands-cursor labels = omega arith

-- A command is inserted only where the editor takes edits, and then the cursor stands within the
-- inserted text: at a position of the new document, of length `len + |insert| - (to - from)`.
pub apply-anchor :
    (labels : List (String × Value)) (c : Command) (x : Context) (from to len : ℕ) (t : Transaction)
    → Memᴰ c (commands labels)
    → from ≤ to
    → to ≤ len
    → apply c x from to ≡ some t
    → (x.read_only ≡ false)
      × (x.editable ≡ true)
      × (t.from ≡ from)
      × (t.to ≡ to)
      × (from ≤ t.anchor)
      × (t.anchor ≤ from + length t.insert)
      × (t.anchor ≤ len + length t.insert - (to - from))
unfolding apply
apply-anchor labels c x from to len t known ordered within e =
    ground (arith, All-mem (λ c. c.cursor ≤ length c.insert) _ (commands-cursor labels) known)
