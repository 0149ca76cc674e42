-- ===== src/Editor/Wiring/Released.antt =====
-- `destroy` takes off what the editor has attached, and nothing else.
use oxidt_kit.Kit.{
  ℕ, zero, suc, ◌≤◌, ◌<◌, ◌≡◌, refl, sym, ◌∙◌, ap, ltb, ◌==◌, ◌&&◌, not, Bool, true, false, none,
  List, [], ◌∷◌, All, All-map, length, if◌then◌else◌, arith,
}
use oxidt_kit.Editor.Wiring.{
  Attachment, the_view, follow, observer, on_invalid, on_click, value_property, on_reset, same,
  Page, filter, set, attach, attach_labels, detach_labels, mount_editor, clear, destroy, schedule,
  is_reset_listener, reset_form, Move, mounts, destroys, resets, timer_runs, Reach, start, goes_on,
}
use oxidt_kit.Editor.Wiring.Filters.{
  filter-filter, filter-cong, filter-All, every-All, passes, filter-true, filters-filter,
}

-- Every listener of a label is one of the labels that there were at the mounting.
abbrev IsKnown : (ℕ → ℕ) → ℕ × Attachment → Type 0
IsKnown labels (id, on_click i) = i < labels id
IsKnown labels (id, _) = Unit

abbrev AllKnown : Page → Type 0
AllKnown p = All (IsKnown p.labels) p.attached

-- An attachment of another editor.
abbrev pub is_other : ℕ → ℕ × Attachment → Bool
is_other id x = not (x.0 == id)

abbrev is_no_click : ℕ → ℕ → ℕ × Attachment → Bool
is_no_click id n (i, on_click k) = not ((i == id) && ltb k n)
is_no_click id n (i, _) = true

abbrev is_not : ℕ × Attachment → ℕ × Attachment → Bool
is_not x y = not (same y x)

click-zero : (id : ℕ) (x : ℕ × Attachment) → is_no_click id 0 x ≡ true
click-zero id (i, the_view) = refl
click-zero id (i, follow) = refl
click-zero id (i, observer) = refl
click-zero id (i, on_invalid) = refl
click-zero id (i, on_click k) = ground arith
click-zero id (i, value_property) = refl
click-zero id (i, on_reset) = refl

click-suc :
    (id n : ℕ) (x : ℕ × Attachment)
    → (is_no_click id n x && is_not (id, on_click n) x) ≡ is_no_click id (suc n) x
click-suc id n (i, the_view) = ground arith
click-suc id n (i, follow) = ground arith
click-suc id n (i, observer) = ground arith
click-suc id n (i, on_invalid) = ground arith
click-suc id n (i, on_click k) = ground arith
click-suc id n (i, value_property) = ground arith
click-suc id n (i, on_reset) = ground arith

detach_labels-attached :
    (id n : ℕ) (p : Page) → (detach_labels id n p).attached ≡ filter (is_no_click id n) p.attached
detach_labels-attached id zero p = sym (
    filter-cong (is_no_click id 0) (λ x. true) p.attached (every-All (click-zero id) p.attached)
    ∙ filter-true p.attached)
detach_labels-attached id (suc n) p =
    ap (filter (is_not (id, on_click n))) (detach_labels-attached id n p)
    ∙ (filter-filter (is_not (id, on_click n)) (is_no_click id n) p.attached
        ∙ filter-cong _ _ p.attached (every-All (click-suc id n) p.attached))

-- The tests of `destroy`, in its order.
abbrev tests : ℕ → ℕ → List (ℕ × Attachment → Bool)
tests id n =
    is_not (id, observer)
    ∷ is_not (id, follow)
    ∷ is_not (id, on_reset)
    ∷ is_not (id, value_property)
    ∷ is_not (id, on_invalid)
    ∷ is_no_click id n
    ∷ is_not (id, the_view)
    ∷ []

passes-is_other :
    (id : ℕ) (labels : ℕ → ℕ) (x : ℕ × Attachment)
    → IsKnown labels x
    → passes (tests id (labels id)) x ≡ is_other id x
passes-is_other id labels (i, on_click k) h = grind (arith, ap labels, h)
passes-is_other id labels (i, the_view) h = ground arith
passes-is_other id labels (i, follow) h = ground arith
passes-is_other id labels (i, observer) h = ground arith
passes-is_other id labels (i, on_invalid) h = ground arith
passes-is_other id labels (i, value_property) h = ground arith
passes-is_other id labels (i, on_reset) h = ground arith

detach_labels-rest :
    (id n : ℕ) (p : Page)
    → ((detach_labels id n p).labels ≡ p.labels) × ((detach_labels id n p).timers ≡ p.timers)
detach_labels-rest id zero p = (refl, refl)
detach_labels-rest id (suc n) p = detach_labels-rest id n p

destroy-rest :
    (id : ℕ) (p : Page)
    → ((destroy id p).labels ≡ p.labels) × ((destroy id p).timers ≡ clear (p.latest id) p.timers)
unfolding destroy
destroy-rest id p = detach_labels-rest id (p.labels id) _

destroy-attached :
    (id : ℕ) (p : Page) → AllKnown p → (destroy id p).attached ≡ filter (is_other id) p.attached
unfolding destroy
destroy-attached id p h =
    ap (filter (is_not (id, the_view))) (detach_labels-attached id (p.labels id) _)
    ∙ (filters-filter (tests id (p.labels id)) p.attached
        ∙ filter-cong _ (is_other id) p.attached
            (All-map _ _ p.attached (passes-is_other id p.labels) h))

-- The attachments of a page that events lead to.
cons-empty :
    (b : Bool) (x : ℕ × Attachment) (xs : List (ℕ × Attachment))
    → (if b then x ∷ xs else xs) ≡ []
    → (b ≡ false) × (xs ≡ [])
cons-empty true x xs e = absurd (omega (arith, ap length e))
cons-empty false x xs e = (refl, e)

empty-All :
    (f : ℕ × Attachment → Bool) (xs : List (ℕ × Attachment))
    → filter f xs ≡ []
    → All (λ x. f x ≡ false) xs
empty-All f [] e = tt
empty-All f (x ∷ xs) e =
    let (no_, rest) = cons-empty (f x) x (filter f xs) e in (no_, empty-All f xs rest)

set-IsKnown :
    (id n : ℕ) (labels : ℕ → ℕ) (x : ℕ × Attachment)
    → (x.0 == id) ≡ false
    → IsKnown labels x
    → IsKnown (set id n labels) x
set-IsKnown id n labels (i, on_click k) ne h = rw ne h
set-IsKnown id n labels (i, the_view) ne h = tt
set-IsKnown id n labels (i, follow) ne h = tt
set-IsKnown id n labels (i, observer) ne h = tt
set-IsKnown id n labels (i, on_invalid) ne h = tt
set-IsKnown id n labels (i, value_property) ne h = tt
set-IsKnown id n labels (i, on_reset) ne h = tt

set-All :
    (id n : ℕ) (labels : ℕ → ℕ) (xs : List (ℕ × Attachment))
    → All (λ x. (x.0 == id) ≡ false) xs
    → All (IsKnown labels) xs
    → All (IsKnown (set id n labels)) xs
set-All id n labels [] ne h = tt
set-All id n labels (x ∷ xs) ne h =
    (set-IsKnown id n labels x ne.0 h.0, set-All id n labels xs ne.1 h.1)

attach_labels-AllKnown :
    (id n k : ℕ) (p : Page)
    → k ≤ n
    → p.labels id ≡ n
    → AllKnown p
    → AllKnown (attach_labels id k p) × ((attach_labels id k p).labels ≡ p.labels)
attach_labels-AllKnown id n zero p le e h = (h, refl)
attach_labels-AllKnown id n (suc k) p le e h =
    let (known, same_) = attach_labels-AllKnown id n k p (omega arith) e h in
    ((omega (arith, le, ap (λ f. f id) same_, e), known), same_)

mount_editor-AllKnown :
    (id n : ℕ) (p : Page)
    → filter (λ x. x.0 == id) p.attached ≡ []
    → AllKnown p
    → AllKnown (mount_editor id n p)
unfolding mount_editor
mount_editor-AllKnown id n p new h =
    let others = set-All id n p.labels p.attached (empty-All _ p.attached new) h in
    let q = record p { labels = set id n p.labels; latest = set id none p.latest } in
    let watched = attach (id, observer) (attach (id, follow) (attach (id, the_view) q)) in
    let (known, same_) =
      attach_labels-AllKnown id n n (attach (id, on_invalid) watched) (omega arith) (ground arith)
        (tt, (tt, (tt, (tt, others)))) in
    (tt, (tt, known))

scheduled-rest :
    (b : Bool) (id : ℕ) (p : Page)
    → ((if b then schedule id p else p).attached ≡ p.attached)
      × ((if b then schedule id p else p).labels ≡ p.labels)
scheduled-rest true id p = (refl, refl)
scheduled-rest false id p = (refl, refl)

pub reset_form-rest :
    (is_owned : ℕ → Bool) (xs : List (ℕ × Attachment)) (p : Page)
    → ((reset_form is_owned xs p).attached ≡ p.attached)
      × ((reset_form is_owned xs p).labels ≡ p.labels)
unfolding reset_form
reset_form-rest is_owned [] p = (refl, refl)
reset_form-rest is_owned ((id, a) ∷ xs) p =
    let rest = reset_form-rest is_owned xs p in
    let kept = scheduled-rest (is_reset_listener a && is_owned id) id (reset_form is_owned xs p) in
    (kept.0 ∙ rest.0, kept.1 ∙ rest.1)

Move-AllKnown : {p q : Page} → Move p q → AllKnown p → AllKnown q
Move-AllKnown (mounts id n p new) h = mount_editor-AllKnown id n p new h
Move-AllKnown (destroys id p) h =
    rw (destroy-attached id p h, (destroy-rest id p).0)
      (filter-All (IsKnown p.labels) (is_other id) p.attached h)
Move-AllKnown (resets is_owned p) h =
    let rest = reset_form-rest is_owned p.attached p in rw (rest.0, rest.1) h
Move-AllKnown (timer_runs t p) h = h

Reach-AllKnown : {p : Page} → Reach p → AllKnown p
Reach-AllKnown start = tt
Reach-AllKnown (goes_on r m) = Move-AllKnown m (Reach-AllKnown r)

-- `destroy` takes off everything that its editor has attached to the page, its observers and
-- listeners, the property `value` and its view, and nothing that another editor has attached; of the
-- timers it clears the one that was set last. So it is for every page that editors are mounted on
-- and destroyed on, each editor under a number of its own, however forms are reset in between.
pub destroy-releases :
    (id : ℕ) {p : Page}
    → Reach p
    → ((destroy id p).attached ≡ filter (is_other id) p.attached)
      × ((destroy id p).timers ≡ clear (p.latest id) p.timers)
destroy-releases id {p} r = (destroy-attached id p (Reach-AllKnown r), (destroy-rest id p).1)
