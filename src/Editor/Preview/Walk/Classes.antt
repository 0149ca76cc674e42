-- ===== src/Editor/Preview/Walk/Classes.antt =====
-- The classes of lines: each line has one decoration, with the classes that its nodes give.

use oxidt_kit.Kit.{
  ℕ, ◌≡◌, ◌≢◌, ◌==◌, refl, ap, sym, ◌∙◌, Bool, true, false, ◌||◌, ◌&&◌, Bool-cases, inl, inr, List,
  [], ◌∷◌, ◌++◌, All, arith,
}
use oxidt_kit.Editor.Preview.Nodes.{Class, Decoration, mark, hidden, widget, line_class}
use oxidt_kit.Editor.Preview.Walk.{
  Class-discrete, is_class, has_class, add_to, add_class, put_all, empty_walk,
}
use oxidt_kit.Editor.Preview.Walk.Once.{put_all_lem, classes_of}

-- Whether the map gives a class to the line at a position.
abbrev pub gives : Class → ℕ → List (ℕ × List Class) → Bool
gives c pos [] = false
gives c pos ((p, cs) ∷ rest) = (p == pos && has_class c cs) || gives c pos rest

abbrev pub Apart : ℕ → List (ℕ × List Class) → Type 0
Apart pos m = All (λ e. e.0 ≢ pos) m

-- No position twice, and no class twice at a position.
abbrev pub Distinct : List Class → Type 0
Distinct [] = Unit {0}
Distinct (c ∷ cs) = (has_class c cs ≡ false) × Distinct cs

abbrev pub IsMap : List (ℕ × List Class) → Type 0
IsMap [] = Unit {0}
IsMap ((p, cs) ∷ rest) = Apart p rest × Distinct cs × IsMap rest

dec_yes : {a b : Class} (x : Dec (a ≡ b)) → elim x [ yes _ ↦ true | no _ ↦ false ] ≡ true → a ≡ b
dec_yes (yes e) h = e
dec_yes (no n) h = absurd (ground arith)

dec_refl : {a : Class} (x : Dec (a ≡ a)) → elim x [ yes _ ↦ true | no _ ↦ false ] ≡ true
dec_refl (yes e) = refl
dec_refl (no n) = absurd (n refl)

is_class_refl : (c : Class) → is_class c c ≡ true
is_class_refl c = dec_refl (Class-discrete c c)

eq-of-is_class : (a b : Class) → is_class a b ≡ true → a ≡ b
eq-of-is_class a b e = dec_yes (Class-discrete a b) e

or_false : (a : Bool) → (a || false) ≡ a
or_false true = refl
or_false false = refl

or_true : (a : Bool) → true ≡ (a || true)
or_true true = refl
or_true false = refl

or_assoc : (a b c : Bool) → (a || (b || c)) ≡ ((a || b) || c)
or_assoc true b c = refl
or_assoc false b c = refl

or_swap : (a b c : Bool) → (a || (b || c)) ≡ (b || (a || c))
or_swap true true c = refl
or_swap true false c = refl
or_swap false b c = refl

or_apart : (x h i g : Bool) → ((x && (h || i)) || g) ≡ ((x && i) || ((x && h) || g))
or_apart true true true g = refl
or_apart true true false g = refl
or_apart true false i g = refl
or_apart false h i g = refl

has_class-append :
    (c k : Class) (cs : List Class) → has_class c (cs ++ k ∷ []) ≡ (has_class c cs || is_class k c)
has_class-append c k [] = or_false (is_class k c)
has_class-append c k (a ∷ cs) =
    ap (λ b. is_class a c || b) (has_class-append c k cs)
    ∙ or_assoc (is_class a c) (has_class c cs) (is_class k c)

-- A class that is there already is `k`, so adding it changes nothing.
has_class-same :
    (c k : Class) (cs : List Class)
    → has_class k cs ≡ true
    → has_class c cs ≡ (has_class c cs || is_class k c)
has_class-same c k cs h = elim (Bool-cases (is_class k c)) [
  | inl same ↦
      rw same
        (ap (λ x. has_class x cs) (sym (eq-of-is_class k c same)) ∙ h ∙ or_true (has_class c cs))
  | inr other ↦ rw other (sym (or_false (has_class c cs)))
]

has_class-add_to :
    (c k : Class) (cs : List Class) → has_class c (add_to k cs) ≡ (has_class c cs || is_class k c)
unfolding add_to
has_class-add_to c k cs = elim (Bool-cases (has_class k cs)) [
  | inl there ↦ rw there (has_class-same c k cs there)
  | inr not_there ↦ rw not_there (has_class-append c k cs)
]

gives-add_class :
    (c k : Class) (pos q : ℕ) (m : List (ℕ × List Class))
    → gives c pos (add_class k q m) ≡ ((q == pos && is_class k c) || gives c pos m)
unfolding add_class
gives-add_class c k pos q [] = ap (λ b. (q == pos && b) || false) (or_false (is_class k c))
gives-add_class c k pos q ((p, cs) ∷ rest) = elim (Bool-cases (p == q)) [
  | inl here ↦
      let p-eq-q : p ≡ q = ground arith in
      rw (here, gives)
        (ap (λ b. (p == pos && b) || gives c pos rest) (has_class-add_to c k cs)
          ∙ or_apart (p == pos) (has_class c cs) (is_class k c) (gives c pos rest)
          ∙ ap
              (λ n.
                (n == pos && is_class k c) || ((p == pos && has_class c cs) || gives c pos rest))
              p-eq-q)
  | inr elsewhere ↦
      rw (elsewhere, gives)
        (ap (λ b. (p == pos && has_class c cs) || b) (gives-add_class c k pos q rest)
          ∙ or_swap (p == pos && has_class c cs) (q == pos && is_class k c) (gives c pos rest))
]

-- Whether one of the decorations gives the class to the line.
abbrev pub given : Class → ℕ → List Decoration → Bool
given c pos [] = false
given c pos (line_class k q ∷ ds) = (q == pos && is_class k c) || given c pos ds
given c pos (d ∷ ds) = given c pos ds

gives-classes_of :
    (c : Class) (pos : ℕ) (ds : List Decoration) (m : List (ℕ × List Class))
    → gives c pos (classes_of ds m) ≡ (given c pos ds || gives c pos m)
gives-classes_of c pos [] m = refl
gives-classes_of c pos (line_class k q ∷ ds) m =
    gives-classes_of c pos ds (add_class k q m)
    ∙ ap (λ b. given c pos ds || b) (gives-add_class c k pos q m)
    ∙ or_swap (given c pos ds) (q == pos && is_class k c) (gives c pos m)
    ∙ or_assoc (q == pos && is_class k c) (given c pos ds) (gives c pos m)
gives-classes_of c pos (mark k from to ∷ ds) m = gives-classes_of c pos ds m
gives-classes_of c pos (hidden r ∷ ds) m = gives-classes_of c pos ds m
gives-classes_of c pos (widget x from to ∷ ds) m = gives-classes_of c pos ds m

false-of-or : (a b : Bool) → (a || b) ≡ false → (a ≡ false) × (b ≡ false)
false-of-or true b e = absurd (ground arith)
false-of-or false b e = (refl, e)

is_class_sym : (a b : Class) → is_class a b ≡ false → is_class b a ≡ false
is_class_sym a b e = elim (Bool-cases (is_class b a)) [
  | inl same ↦ absurd (ground (arith, clash (eq-of-is_class b a same)))
  | inr other ↦ other
]
  where
    clash : b ≡ a → true ≡ false
    clash s = sym (is_class_refl a) ∙ ap (λ x. is_class a x) (sym s) ∙ e

append-Distinct :
    (k : Class) (cs : List Class) → has_class k cs ≡ false → Distinct cs → Distinct (cs ++ k ∷ [])
append-Distinct k [] new h = (refl, tt)
append-Distinct k (a ∷ cs) new h =
    let (other, rest) = false-of-or (is_class a k) (has_class k cs) new in
    (
      has_class-append a k cs ∙ ap (λ b. b || is_class k a) h.0 ∙ is_class_sym a k other,
      append-Distinct k cs rest h.1,
    )

add_to-Distinct : (k : Class) (cs : List Class) → Distinct cs → Distinct (add_to k cs)
unfolding add_to
add_to-Distinct k cs h = elim (Bool-cases (has_class k cs)) [
  | inl there ↦ rw there h
  | inr new ↦ rw new (append-Distinct k cs new h)
]

add_class-Apart :
    (k : Class) (p q : ℕ) (m : List (ℕ × List Class))
    → q ≢ p
    → Apart p m
    → Apart p (add_class k q m)
unfolding add_class
add_class-Apart k p q [] ne h = (ne, tt)
add_class-Apart k p q ((r, cs) ∷ rest) ne h = elim (Bool-cases (r == q)) [
  | inl here ↦ rw here (h.0, h.1)
  | inr elsewhere ↦ rw elsewhere (h.0, add_class-Apart k p q rest ne h.1)
]

add_class-IsMap :
    (k : Class) (q : ℕ) (m : List (ℕ × List Class)) → IsMap m → IsMap (add_class k q m)
unfolding add_class
add_class-IsMap k q [] h = (tt, (refl, tt), tt)
add_class-IsMap k q ((p, cs) ∷ rest) h = elim (Bool-cases (p == q)) [
  | inl here ↦ rw here (h.0, add_to-Distinct k cs h.1, h.2)
  | inr elsewhere ↦
      rw elsewhere
        (add_class-Apart k p q rest (λ e. ground arith) h.0, h.1, add_class-IsMap k q rest h.2)
]

classes_of-IsMap :
    (ds : List Decoration) (m : List (ℕ × List Class)) → IsMap m → IsMap (classes_of ds m)
classes_of-IsMap [] m h = h
classes_of-IsMap (line_class c pos ∷ ds) m h =
    classes_of-IsMap ds (add_class c pos m) (add_class-IsMap c pos m h)
classes_of-IsMap (mark c from to ∷ ds) m h = classes_of-IsMap ds m h
classes_of-IsMap (hidden r ∷ ds) m h = classes_of-IsMap ds m h
classes_of-IsMap (widget x from to ∷ ds) m h = classes_of-IsMap ds m h

-- Whatever decorations the nodes give, the map that they are put into has each line once, with no
-- class twice, and a class is among those of a line just when one of the decorations gives it.
pub line_classes_lem :
    (ds : List Decoration) (c : Class) (pos : ℕ)
    → IsMap (put_all ds empty_walk).line_classes
      × (gives c pos (put_all ds empty_walk).line_classes ≡ given c pos ds)
line_classes_lem ds c pos =
    rw (put_all_lem ds empty_walk)
      (classes_of-IsMap ds [] tt, gives-classes_of c pos ds [] ∙ or_false (given c pos ds))
