-- ===== src/Editor/Life/Detached.antt =====
-- Nothing stays attached to the page for an element that has left it.
use oxidt_kit.Kit.{
  ℕ, zero, suc, ◌≡◌, refl, subst, ◌∙◌, ◌==◌, not, ◌||◌, Bool, false, Bool-cases, inl, inr, Option,
  none, some, List, [], ◌∷◌, All, arith,
}
use oxidt_kit.Editor.Element.{
  Microtask, connecting, disconnecting, Element, is_set, connected_callback, disconnected_callback,
  run, mounts, created,
}
use oxidt_kit.Editor.Element
use oxidt_kit.Editor.Element.Drained.{drained-none}
use oxidt_kit.Editor.Wiring.{
  Attachment, Page, filter, attach, attach_labels, mount_editor, destroy, clear, reset_form,
  empty_page,
}
use oxidt_kit.Editor.Wiring
use oxidt_kit.Editor.Wiring.Released.{is_other, destroy-releases, reset_form-rest}
use oxidt_kit.Editor.Life.{
  destroy_held, attaches, Life, start, inserts, removes, renders, runs, resets, timer_runs,
}

abbrev Any : Bool → Type 0
Any b = Unit

Life-Element : {e : Element} {w : Page} → Life e w → Element.Reach Any e
Life-Element (start b) = Element.start b tt
Life-Element (inserts {e} l c) = Element.inserts e (Life-Element l) c
Life-Element (removes {e} l c) = Element.removes e (Life-Element l) c
Life-Element (renders {e} b l) = Element.renders e b (Life-Element l) tt
Life-Element (runs {e} n t ts l q) = Element.runs e t ts (Life-Element l) q
Life-Element (resets o l) = Life-Element l
Life-Element (timer_runs t l) = Life-Element l

-- Whose the attachments are.
abbrev Owned : Option ℕ → Page → Type 0
Owned none w = w.attached ≡ []
Owned (some id) w = All (λ x. is_other id x ≡ false) w.attached

abbrev Sound : Option ℕ → Page → Type 0
Sound o w = Wiring.Reach w × Owned o w

own_id : (id : ℕ) → not (id == id) ≡ false
own_id id = ground arith

attach_labels-Owned :
    (id n : ℕ) (w : Page) → Owned (some id) w → Owned (some id) (attach_labels id n w)
attach_labels-Owned id zero w h = h
attach_labels-Owned id (suc n) w h = (own_id id, attach_labels-Owned id n w h)

mount_editor-Owned : (id n : ℕ) (w : Page) → w.attached ≡ [] → Owned (some id) (mount_editor id n w)
unfolding mount_editor
mount_editor-Owned id n w e = (
  own_id id,
  (
    own_id id,
    attach_labels-Owned id n _ (own_id id, (own_id id, (own_id id, (own_id id, rw e tt)))),
  ),
)

filter-none :
    (f : ℕ × Attachment → Bool) (xs : List (ℕ × Attachment))
    → All (λ x. f x ≡ false) xs
    → filter f xs ≡ []
filter-none f [] h = refl
filter-none f (x ∷ xs) h = rw (h.0, filter-none f xs h.1) refl

mount_editor-Sound : (id n : ℕ) (w : Page) → Sound none w → Sound (some id) (mount_editor id n w)
mount_editor-Sound id n w (r, e) =
    (Wiring.goes_on r (Wiring.mounts id n w (rw e refl)), mount_editor-Owned id n w e)

destroy_held-Sound : (o : Option ℕ) (w : Page) → Sound o w → Sound none (destroy_held o w)
destroy_held-Sound none w h = h
destroy_held-Sound (some id) w (r, h) = (
  Wiring.goes_on r (Wiring.destroys id w),
  (destroy-releases id r).0 ∙ filter-none (is_other id) w.attached h,
)

unset : (o : Option ℕ) → is_set o ≡ false → o ≡ none
unset none u = refl
unset (some id) u = absurd (ground arith)

attaches-Sound :
    (t : Microtask) (n : ℕ) (e : Element) (w : Page)
    → Sound e.editor w
    → Sound (run t e).editor (attaches t n e w)
unfolding run attaches
attaches-Sound connecting n e w h = elim (Bool-cases (not e.is_connected || is_set e.editor)) [
  | inl idle ↦ rw idle h
  | inr free ↦ elim (Bool-cases e.has_parts) [
    | inl parts ↦
        rw (free, parts)
          (mount_editor-Sound e.mounted n w
            (subst (λ o. Sound o w) (unset e.editor (ground (arith, free))) h))
    | inr no_parts ↦ rw (free, no_parts) h
  ]
]
attaches-Sound disconnecting n e w h = elim (Bool-cases e.is_connected) [
  | inl still ↦ rw still h
  | inr gone ↦ rw gone (destroy_held-Sound e.editor w h)
]

timer-Owned :
    (o : Option ℕ) (t : ℕ) (w : Page)
    → Owned o w
    → Owned o (record w { timers = clear (some t) w.timers })
timer-Owned none t w h = h
timer-Owned (some id) t w h = h

resets-Owned :
    (o : Option ℕ) (is_owned : ℕ → Bool) (w : Page)
    → Owned o w
    → Owned o (reset_form is_owned w.attached w)
resets-Owned none is_owned w h = (reset_form-rest is_owned w.attached w).0 ∙ h
resets-Owned (some id) is_owned w h = rw ((reset_form-rest is_owned w.attached w).0) h

Life-Sound : {e : Element} {w : Page} → Life e w → Sound e.editor w
unfolding connected_callback disconnected_callback
Life-Sound (start b) = (Wiring.start, refl)
Life-Sound (inserts l c) = Life-Sound l
Life-Sound (removes l c) = Life-Sound l
Life-Sound (renders b l) = Life-Sound l
Life-Sound (runs {e} {w} n t ts l q) = attaches-Sound t n (record e { queue = ts }) w (Life-Sound l)
Life-Sound (resets {e} {w} o l) =
    let (r, h) = Life-Sound l in (Wiring.goes_on r (Wiring.resets o w), resets-Owned e.editor o w h)
Life-Sound (timer_runs {e} {w} t l) =
    let (r, h) = Life-Sound l in
    (Wiring.goes_on r (Wiring.timer_runs t w), timer-Owned e.editor t w h)

-- Once an element is out of the document and its microtasks have run, nothing that its editors have
-- attached is left on the page, no observer, no listener, no property and no view, however often it
-- was inserted, moved, changed and removed before, and however the microtasks came in between.
pub removed-detached :
    {e : Element} {w : Page} → Life e w → e.queue ≡ [] → e.is_connected ≡ false → w.attached ≡ []
removed-detached {e} {w} l empty gone =
    subst (λ o. Owned o w) (unset e.editor (drained-none (Life-Element l) empty gone))
      (Life-Sound l).1
