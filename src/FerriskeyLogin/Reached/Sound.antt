-- ===== src/FerriskeyLogin/Reached/Sound.antt =====
-- The invariant of the page.
use oxidt_kit.Kit.{refl, false, ◌∙◌, ap, sym, subst, if◌then◌else◌, ◌≡◌}
use oxidt_kit.FerriskeyLogin.State.{Step, Setting, Task, Reply, Page}
use oxidt_kit.FerriskeyLogin.Ui.{show}
use oxidt_kit.FerriskeyLogin.Run.{blank, init, Reach, start, next}
use oxidt_kit.FerriskeyLogin.Protocol.{view, loaded}
use oxidt_kit.FerriskeyLogin.Protocol.Invariant.{IsSound, Step-IsSound}
use oxidt_kit.FerriskeyLogin.Refines.Views.{show-view, set_loading-view}
use oxidt_kit.FerriskeyLogin.Refines.Moves.{Move-Step}

pub init-view : (s : Setting) → view (init s) ≡ loaded false (view (blank s))
unfolding init
init-view s =
    let name = if s.starts_at_terms then Step.tos else Step.email in
    set_loading-view false (show name (blank s)) ∙ ap (loaded false) (show-view name (blank s))

blank-IsSound : (s : Setting) → IsSound (loaded false (view (blank s)))
blank-IsSound s = record { buttons = refl; spinner = refl; terms = refl; fresh = tt; held = tt }

-- On every page that comes about, whatever the user does and whatever the pending requests are
-- answered with: the buttons are disabled and the spinner shows exactly while the page is loading,
-- the button that accepts the terms is disabled exactly while it is loading or the terms are not
-- ticked, no pending ceremony is of a later generation than the page's, and the ceremony in the
-- slot is one whose credential is still pending.
pub Reach-IsSound :
    (Q : (t : Task) → Reply t → Type 0) (s : Setting) {p : Page} → Reach Q s p → IsSound (view p)
Reach-IsSound Q s start = subst IsSound (sym (init-view s)) (blank-IsSound s)
Reach-IsSound Q s (next h m replied) = Step-IsSound Q (Move-Step Q m replied) (Reach-IsSound Q s h)
