-- ===== src/FerriskeyLogin/Reached/Location.antt =====
-- Where the page leaves for.
use oxidt_kit.Kit.{String, some, ◌≡◌, ap, arith}
use oxidt_kit.FerriskeyLogin.State.{Setting, Page}
use oxidt_kit.FerriskeyLogin.Run.{Reach, start, next}
use oxidt_kit.FerriskeyLogin.Protocol.{View}
use oxidt_kit.FerriskeyLogin.Protocol.Redirect.{LeadsTo, IsAt, Step-IsAt}
use oxidt_kit.FerriskeyLogin.Refines.Moves.{Move-Step}
use oxidt_kit.FerriskeyLogin.Reached.Sound.{init-view}

init-IsAt :
    {P : String → Type 0} (s : Setting) {p : Page} → Reach (LeadsTo P) s p → IsAt P p.location
init-IsAt s start = λ url e. ground (arith, e, ap (λ (v : View). v.location) (init-view s))
init-IsAt s (next h m replied) = Step-IsAt (Move-Step _ m replied) (init-IsAt s h)

-- Whatever is true of every URL that a granted sign-in names, by passkey, code or password or at
-- the acceptance of the terms, is true of the URL that the page leaves for: nothing but such a
-- reply makes it leave, and an empty URL never does.
pub location-LeadsTo :
    {P : String → Type 0} (s : Setting) {p : Page} (url : String)
    → Reach (LeadsTo P) s p
    → p.location ≡ some url
    → P url
location-LeadsTo s url h e = init-IsAt s h url e
