-- ===== src/Editor/Element/Drained.antt =====
-- When the microtasks have run, the element has an editor just while it is in the document.
use oxidt_kit.Kit.{
  ℕ, suc, ◌+◌, ◌≤◌, ◌≡◌, refl, ap, not, ◌||◌, Bool, true, false, none, List, [], ◌∷◌, ◌++◌,
  if◌then◌else◌, arith,
}
use oxidt_kit.Editor.Element.{
  Microtask, connecting, disconnecting, Element, is_set, connected_callback, disconnected_callback,
  mounts, destroy, run, Reach, start, inserts, removes, renders, runs,
}
use oxidt_kit.Editor.Element.Mounted.{flag, if-holds}

abbrev pub waiting : Microtask → List Microtask → ℕ
waiting t [] = 0
waiting connecting (connecting ∷ ts) = suc (waiting connecting ts)
waiting connecting (disconnecting ∷ ts) = waiting connecting ts
waiting disconnecting (connecting ∷ ts) = waiting disconnecting ts
waiting disconnecting (disconnecting ∷ ts) = suc (waiting disconnecting ts)

-- What is left to do is queued.
abbrev Ends : Element → Type 0
Ends e = flag (is_set e.editor) ≤ flag e.is_connected + waiting disconnecting e.queue

abbrev Begins : Element → Type 0
Begins e = flag e.is_connected ≤ flag (is_set e.editor) + waiting connecting e.queue

waiting-last :
    (t : Microtask) (ts : List Microtask) (u : Microtask)
    → waiting t (ts ++ u ∷ []) ≡ waiting t ts + waiting t (u ∷ [])
waiting-last t [] u = omega arith
waiting-last connecting (connecting ∷ ts) u = omega (arith, waiting-last connecting ts u)
waiting-last connecting (disconnecting ∷ ts) u = waiting-last connecting ts u
waiting-last disconnecting (connecting ∷ ts) u = waiting-last disconnecting ts u
waiting-last disconnecting (disconnecting ∷ ts) u = omega (arith, waiting-last disconnecting ts u)

flag-le : (b : Bool) → flag b ≤ 1
flag-le true = omega arith
flag-le false = omega arith

run-Ends :
    (t : Microtask) (e : Element)
    → flag (is_set e.editor) ≤ flag e.is_connected + waiting disconnecting (t ∷ e.queue)
    → Ends (run t e)
unfolding run
run-Ends connecting e h =
    if-holds Ends (not e.is_connected || is_set e.editor) e (if e.has_parts then mounts e else e)
      (λ idle. h)
      (λ free.
        if-holds Ends e.has_parts (mounts e) e
          (λ parts. let on : e.is_connected ≡ true = ground arith in omega (arith, ap flag on))
          (λ no_parts. h))
run-Ends disconnecting e h =
    if-holds Ends e.is_connected e
      (record e { editor = none; destroyed = destroy e.editor e.destroyed })
      (λ still. omega (arith, ap flag still, flag-le (is_set e.editor))) (λ gone. omega arith)

idle-Begins : (e : Element) → (not e.is_connected || is_set e.editor) ≡ true → Begins e
idle-Begins e idle = ground arith

run-Begins :
    (t : Microtask) (e : Element)
    → e.has_parts ≡ true
    → flag e.is_connected ≤ flag (is_set e.editor) + waiting connecting (t ∷ e.queue)
    → Begins (run t e)
unfolding run
run-Begins connecting e parts h =
    if-holds Begins (not e.is_connected || is_set e.editor) e (if e.has_parts then mounts e else e)
      (λ idle. idle-Begins e idle)
      (λ free.
        if-holds Begins e.has_parts (mounts e) e
          (λ some_parts. omega (arith, flag-le e.is_connected)) (λ no_parts. absurd (ground arith)))
run-Begins disconnecting e parts h =
    if-holds Begins e.is_connected e
      (record e { editor = none; destroyed = destroy e.editor e.destroyed }) (λ still. h)
      (λ gone. omega (arith, ap flag gone))

Reach-Ends : {Parts : Bool → Type 0} {e : Element} → Reach Parts e → Ends e
unfolding connected_callback disconnected_callback
Reach-Ends (start b p) = omega arith
Reach-Ends (inserts e h c) = omega (arith, flag-le (is_set e.editor))
Reach-Ends (removes e h c) =
    omega (arith, flag-le (is_set e.editor), waiting-last disconnecting e.queue disconnecting)
Reach-Ends (renders e b h p) = Reach-Ends h
Reach-Ends (runs e t ts h q) =
    run-Ends t (record e { queue = ts }) (omega (arith, Reach-Ends h, ap (waiting disconnecting) q))

-- The children are there.
abbrev pub Present : Bool → Type 0
Present b = b ≡ true

run-parts : (t : Microtask) (e : Element) → e.has_parts ≡ true → (run t e).has_parts ≡ true
unfolding run
run-parts connecting e h =
    if-holds (λ x. x.has_parts ≡ true) (not e.is_connected || is_set e.editor) e
      (if e.has_parts then mounts e else e) (λ idle. h)
      (λ free. if-holds (λ x. x.has_parts ≡ true) e.has_parts (mounts e) e (λ a. h) (λ b. h))
run-parts disconnecting e h =
    if-holds (λ x. x.has_parts ≡ true) e.is_connected e _ (λ still. h) (λ gone. h)

Reach-parts : {e : Element} → Reach Present e → e.has_parts ≡ true
unfolding connected_callback disconnected_callback
Reach-parts (start b p) = p
Reach-parts (inserts e h c) = Reach-parts h
Reach-parts (removes e h c) = Reach-parts h
Reach-parts (renders e b h p) = p
Reach-parts (runs e t ts h q) = run-parts t (record e { queue = ts }) (Reach-parts h)

Reach-Begins : {e : Element} → Reach Present e → Begins e
unfolding connected_callback disconnected_callback
Reach-Begins (start b p) = omega arith
Reach-Begins (inserts e h c) = omega (arith, waiting-last connecting e.queue connecting)
Reach-Begins (removes e h c) = omega arith
Reach-Begins (renders e b h p) = Reach-Begins h
Reach-Begins (runs e t ts h q) =
    run-Begins t (record e { queue = ts }) (Reach-parts h)
      (omega (arith, Reach-Begins h, ap (waiting connecting) q))

same-flags : (a b : Bool) → flag a ≤ flag b → flag b ≤ flag a → a ≡ b
same-flags true true h g = refl
same-flags true false h g = absurd (omega arith)
same-flags false true h g = absurd (omega arith)
same-flags false false h g = refl

-- When every microtask has run, an element outside of the document holds no editor, whatever became
-- of its children.
pub drained-none :
    {Parts : Bool → Type 0} {e : Element}
    → Reach Parts e
    → e.queue ≡ []
    → e.is_connected ≡ false
    → is_set e.editor ≡ false
drained-none {e = e} h empty gone =
    same-flags (is_set e.editor) false
      (omega (arith, Reach-Ends h, ap (waiting disconnecting) empty, ap flag gone)) (omega arith)

-- When every microtask has run, an element whose children are there holds an editor just while it
-- is in the document, however often and in whatever order it was inserted and removed.
pub drained-editor :
    {e : Element} → Reach Present e → e.queue ≡ [] → is_set e.editor ≡ e.is_connected
drained-editor {e = e} h empty =
    same-flags (is_set e.editor) e.is_connected
      (omega (arith, Reach-Ends h, ap (waiting disconnecting) empty))
      (omega (arith, Reach-Begins h, ap (waiting connecting) empty))
