-- ===== src/Editor/Element/Mounted.antt =====
-- The element has an editor just while it is in the document, and loses none.
use oxidt_kit.Kit.{
  ℕ, suc, ◌+◌, ◌≡◌, ◌==◌, ltb, refl, not, ◌||◌, Bool, true, false, Option, none, some, List, [],
  ◌∷◌, if◌then◌else◌, arith,
}
use oxidt_kit.Editor.Element.{
  Microtask, connecting, disconnecting, Element, is_set, connected_callback, disconnected_callback,
  mounts, destroy, run, Reach, start, inserts, removes, renders, runs,
}

abbrev pub flag : Bool → ℕ
flag true = 1
flag false = 0

abbrev pub held : ℕ → Option ℕ → ℕ
held i none = 0
held i (some id) = flag (id == i)

abbrev pub count : ℕ → List ℕ → ℕ
count i [] = 0
count i (id ∷ ids) = flag (id == i) + count i ids

-- Every editor that was mounted is the element's or was destroyed, once.
abbrev pub Accounted : ℕ → Element → Type 0
Accounted i e = held i e.editor + count i e.destroyed ≡ flag (ltb i e.mounted)

count-destroy :
    (i : ℕ) (o : Option ℕ) (ids : List ℕ) → count i (destroy o ids) ≡ held i o + count i ids
count-destroy i none ids = omega arith
count-destroy i (some id) ids = refl

flag-ltb : (i m : ℕ) → flag (m == i) + flag (ltb i m) ≡ flag (ltb i (suc m))
flag-ltb i m = ground arith

held-free : (i : ℕ) (o : Option ℕ) → is_set o ≡ false → held i o ≡ 0
held-free i none e = refl
held-free i (some id) e = absurd (ground arith)

mounts-Accounted :
    (i : ℕ) (e : Element) → is_set e.editor ≡ false → Accounted i e → Accounted i (mounts e)
mounts-Accounted i e free h = omega (arith, h, flag-ltb i e.mounted, held-free i e.editor free)

destroyed-Accounted :
    (i : ℕ) (e : Element)
    → Accounted i e
    → Accounted i (record e { editor = none; destroyed = destroy e.editor e.destroyed })
destroyed-Accounted i e h = omega (arith, h, count-destroy i e.editor e.destroyed)

pub if-holds :
    (P : Element → Type 0) (b : Bool) (x y : Element)
    → (b ≡ true → P x)
    → (b ≡ false → P y)
    → P (if b then x else y)
if-holds P true x y h g = h refl
if-holds P false x y h g = g refl

run-Accounted : (i : ℕ) (t : Microtask) (e : Element) → Accounted i e → Accounted i (run t e)
unfolding run
run-Accounted i connecting e h =
    if-holds (Accounted i) (not e.is_connected || is_set e.editor) e
      (if e.has_parts then mounts e else e) (λ idle. h)
      (λ free.
        if-holds (Accounted i) e.has_parts (mounts e) e
          (λ parts. mounts-Accounted i e (ground arith) h) (λ no_parts. h))
run-Accounted i disconnecting e h =
    if-holds (Accounted i) e.is_connected e _ (λ still. h) (λ gone. destroyed-Accounted i e h)

-- Whatever happens to the element and in whatever order, every editor that it has mounted is the
-- one that it holds or was destroyed, never both and never twice, and no other one was.
pub Reach-Accounted : {Parts : Bool → Type 0} {e : Element} (i : ℕ) → Reach Parts e → Accounted i e
unfolding connected_callback disconnected_callback
Reach-Accounted i (start b p) = ground arith
Reach-Accounted i (inserts e h c) = Reach-Accounted i h
Reach-Accounted i (removes e h c) = Reach-Accounted i h
Reach-Accounted i (renders e b h p) = Reach-Accounted i h
Reach-Accounted i (runs e t ts h q) =
    run-Accounted i t (record e { queue = ts }) (Reach-Accounted i h)
