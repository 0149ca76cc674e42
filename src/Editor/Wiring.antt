-- ===== src/Editor/Wiring.antt =====
-- What `mountEditor` attaches to the page, and what `destroy` takes off again: observers, listeners,
-- the property `value`, the view, and the timer of a form's reset. Editors are known by their
-- numbers; several of them may be mounted on one page.
pub mod Filters
pub mod Released
mod Examples
use oxidt_kit.Kit.{
  ℕ, zero, suc, ◌≡◌, ◌==◌, ◌&&◌, Bool, true, false, not, Option, none, some, List, [], ◌∷◌,
  if◌then◌else◌,
}

pub data Attachment : Type 0 where
  the_view : Attachment
  follow : Attachment  -- the observer of the textarea's children
  observer : Attachment  -- the observer of attributes
  on_invalid : Attachment  -- the textarea's listener
  on_click : ℕ → Attachment  -- the listener of one of its labels
  value_property : Attachment  -- of the textarea
  on_reset : Attachment  -- the document's listener

abbrev pub kind : Attachment → ℕ
kind the_view = 0
kind follow = 1
kind observer = 2
kind on_invalid = 3
kind (on_click i) = 4
kind value_property = 5
kind on_reset = 6

abbrev pub which : Attachment → ℕ
which (on_click i) = i
which _ = 0

abbrev pub same : ℕ × Attachment → ℕ × Attachment → Bool
same x y = (x.0 == y.0) && ((kind x.1 == kind y.1) && (which x.1 == which y.1))

-- `labels` is how many labels each editor's textarea had when it was mounted, and `latest` each
-- editor's `resetTimer`.
pub record Page : Type 0 where
  pub attached : List (ℕ × Attachment)  -- newest first
  pub labels : ℕ → ℕ
  pub latest : ℕ → Option ℕ
  pub timers : List (ℕ × ℕ)  -- the editor and the timer's number
  pub next : ℕ  -- the next timer's number

abbrev pub filter {ℓ} : {A : Type ℓ} → (A → Bool) → List A → List A
filter f [] = []
filter f (x ∷ xs) = let rest = filter f xs in if f x then x ∷ rest else rest

abbrev pub set {ℓ} : {A : Type ℓ} → ℕ → A → (ℕ → A) → ℕ → A
set i a f j = if j == i then a else f j

abbrev pub attach : ℕ × Attachment → Page → Page
attach x p = record p { attached = x ∷ p.attached }

abbrev pub detach : ℕ × Attachment → Page → Page
detach x p = record p { attached = filter (λ y. not (same y x)) p.attached }

-- `labels.forEach(...)`, for the last `n` labels and for all of them.
abbrev pub attach_labels : ℕ → ℕ → Page → Page
attach_labels id zero p = p
attach_labels id (suc n) p = attach (id, on_click n) (attach_labels id n p)

abbrev pub detach_labels : ℕ → ℕ → Page → Page
detach_labels id zero p = p
detach_labels id (suc n) p = detach (id, on_click n) (detach_labels id n p)

-- `mountEditor` on a textarea with `n` labels.
unfoldable pub mount_editor : ℕ → ℕ → Page → Page
mount_editor id n p =
    let q = record p { labels = set id n p.labels; latest = set id none p.latest } in
    let watched = attach (id, observer) (attach (id, follow) (attach (id, the_view) q)) in
    attach (id, on_reset)
      (attach (id, value_property) (attach_labels id n (attach (id, on_invalid) watched)))

abbrev pub clear : Option ℕ → List (ℕ × ℕ) → List (ℕ × ℕ)
clear none ts = ts
clear (some t) ts = filter (λ x. not (x.1 == t)) ts

-- `clearTimeout(resetTimer)`.
abbrev pub clear_timer : ℕ → Page → Page
clear_timer id p = record p { timers = clear (p.latest id) p.timers }

unfoldable pub destroy : ℕ → Page → Page
destroy id p =
    let unwatched = clear_timer id (detach (id, follow) (detach (id, observer) p)) in
    let unlistened = detach (id, value_property) (detach (id, on_reset) unwatched) in
    detach (id, the_view) (detach_labels id (p.labels id) (detach (id, on_invalid) unlistened))

-- `resetTimer = setTimeout(...)`.
abbrev pub schedule : ℕ → Page → Page
schedule id p = record p {
  latest = set id (some p.next) p.latest;
  timers = (id, p.next) ∷ p.timers;
  next = suc p.next;
}

abbrev pub is_reset_listener : Attachment → Bool
is_reset_listener on_reset = true
is_reset_listener _ = false

-- A form is reset: the listeners of the editors whose textarea is in it set a timer, the
-- oldest first.
unfoldable pub reset_form : (ℕ → Bool) → List (ℕ × Attachment) → Page → Page
reset_form is_owned [] p = p
reset_form is_owned ((id, a) ∷ xs) p =
    let q = reset_form is_owned xs p in
    if is_reset_listener a && is_owned id then schedule id q else q

abbrev pub empty_page : Page
empty_page = record { attached = []; labels = λ i. 0; latest = λ i. none; timers = []; next = 0 }

-- Editors are mounted, each under a new number, and destroyed, forms are reset, and timers run.
pub data Move : Page → Page → Type 0 where
  mounts :
      (id n : ℕ) (p : Page) → filter (λ x. x.0 == id) p.attached ≡ [] → Move p (mount_editor id n p)
  destroys : (id : ℕ) (p : Page) → Move p (destroy id p)
  resets : (is_owned : ℕ → Bool) (p : Page) → Move p (reset_form is_owned p.attached p)
  timer_runs : (t : ℕ) (p : Page) → Move p (record p { timers = clear (some t) p.timers })

pub data Reach : Page → Type 0 where
  start : Reach empty_page
  goes_on : {p q : Page} → Reach p → Move p q → Reach q
