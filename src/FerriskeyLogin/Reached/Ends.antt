-- ===== src/FerriskeyLogin/Reached/Ends.antt =====
-- A page that is loading gets back to the user, or leaves.
use oxidt_kit.Kit.{
  ℕ, zero, suc, ◌<◌, ◌≡◌, refl, ap, subst, sym, inl, inr, true, false, Bool-cases, none, some, List,
  [], ◌∷◌, ◌++◌, String, arith,
}
use oxidt_kit.FerriskeyLogin.State.{Setting, Task, Reply, Page}
use oxidt_kit.FerriskeyLogin.Run.{resume, Reach, start, next}
use oxidt_kit.FerriskeyLogin.Protocol.{
  View, view, is_busy, rank, Answer, fails, proves, ignores, frees, stalls, leaves, asks, starts,
  starts_not,
}
use oxidt_kit.FerriskeyLogin.Protocol.Progress.{
  flag, busies, has_left, Leads, IsServed, Step-IsServed,
}
use oxidt_kit.FerriskeyLogin.Refines.Moves.{resume-Answer, Move-Step}
use oxidt_kit.FerriskeyLogin.Reached.Sound.{init-view}

-- The user can go on, or the page has left.
pub data IsFinished (v : View) : Type 0 where
  free : v.loading ≡ false → IsFinished v
  left : (url : String) → v.location ≡ some url → IsFinished v

-- Every reply to `t` finishes, or leaves the page with one task in its place, for which `R` holds.
pub data Goes (R : Task → Type 0) (v w : View) : Type 0 where
  finishes : IsFinished w → Goes R v w
  waits : (u : Task) → w.tasks ≡ u ∷ v.tasks → R u → Goes R v w

-- After at most `n` replies, each one to the task that the one before has left, the page is
-- finished, whatever happens to it between them.
abbrev pub Ends : ℕ → Task → Type 0
Ends zero t = ⊥
Ends (suc n) t = (p : Page) (r : Reply t) → Leads t r → Goes (Ends n) (view p) (view (resume t r p))

abbrev Lower : Task → Task → Type 0
Lower t u = (is_busy u ≡ true) × (rank u < rank t)

Answer-Goes :
    {t : Task} {r : Reply t} {v w : View}
    → Answer t r v w
    → is_busy t ≡ true
    → Leads t r
    → Goes (Lower t) v w
Answer-Goes (fails mine id r v) busy q = absurd (ground arith)
Answer-Goes (proves mine id c v e) busy q = absurd (ground arith)
Answer-Goes (ignores mine r v e) busy q = absurd (ground arith)
Answer-Goes (frees t r v e) busy q = finishes (free refl)
Answer-Goes (stalls t r v e) busy q = absurd (q e)
Answer-Goes (leaves t r v url e) busy q = finishes (left url refl)
Answer-Goes (asks t u r v e lt) busy q = waits u refl (e, lt)
Answer-Goes (starts r v id) busy q = finishes (free refl)
Answer-Goes (starts_not r v) busy q = finishes (free refl)

Goes-map : {R T : Task → Type 0} {v w : View} → ((u : Task) → R u → T u) → Goes R v w → Goes T v w
Goes-map f (finishes h) = finishes h
Goes-map f (waits u e h) = waits u e (f u h)

busy-Ends : (n : ℕ) (t : Task) → is_busy t ≡ true → rank t < n → Ends n t
busy-Ends zero t busy lt = omega arith
busy-Ends (suc n) t busy lt = λ p r q.
    Goes-map (λ u h. let (b, less) = h in busy-Ends n u b (omega arith))
      (Answer-Goes (resume-Answer t r p) busy q)

rank-64 : (t : Task) → rank t < 64
rank-64 t = ground arith

-- A task of the page whose replies bring it to an end.
pub data Awaits (p : Page) : Type 0 where
  awaits :
      (before after : List Task) (t : Task) → p.tasks ≡ before ++ t ∷ after → Ends 64 t → Awaits p

data Busy : List Task → Type 0 where
  busy : (before after : List Task) (t : Task) → is_busy t ≡ true → Busy (before ++ t ∷ after)

Busy-cons : (t : Task) (ts : List Task) → Busy ts → Busy (t ∷ ts)
Busy-cons t ts (busy before after u e) = busy (t ∷ before) after u e

busies-Busy : (ts : List Task) → 0 < busies ts → Busy ts
busies-Busy [] lt = absurd (omega arith)
busies-Busy (t ∷ ts) lt = elim (Bool-cases (is_busy t)) [
  | inl on ↦ busy [] ts t on
  | inr off ↦ Busy-cons t ts (busies-Busy ts (omega (arith, lt, ap flag off)))
]

Busy-Awaits : (p : Page) {ts : List Task} → p.tasks ≡ ts → Busy ts → Awaits p
Busy-Awaits p e (busy before after t b) = awaits before after t e (busy-Ends 64 t b (rank-64 t))

Reach-IsServed : (s : Setting) {p : Page} → Reach Leads s p → IsServed (view p)
Reach-IsServed s start = subst IsServed (sym (init-view s)) (omega arith)
Reach-IsServed s (next h m replied) = Step-IsServed (Move-Step Leads m replied) (Reach-IsServed s h)

-- While every granted sign-in names a URL to go to or asks for the terms, a page that is loading
-- and has not left waits for a reply that brings it on: one of its pending tasks ends, after that
-- task's reply and at most 63 more, each one to the task that the reply before it has put in place,
-- with a page whose controls are enabled again or which has left, whatever else happens meanwhile.
pub loading-Awaits :
    (s : Setting) {p : Page} → Reach Leads s p → p.loading ≡ true → p.location ≡ none → Awaits p
loading-Awaits s {p} h on here =
    let served = Reach-IsServed s h in
    Busy-Awaits p refl (busies-Busy p.tasks (omega (arith, served, ap flag on, ap has_left here)))
