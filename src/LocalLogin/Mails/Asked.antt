-- ===== src/LocalLogin/Mails/Asked.antt =====
-- The handlers that may end a sign-in ask for no code.
use oxidt_kit.Kit.{ℕ, refl, not, ◌&&◌, Bool, false, nonempty_string, String, Option, none, some}
use oxidt_kit.Browser.Http.{Response, Outcome, ok, thrown, truthy, is_true, or_default}
use oxidt_kit.LocalLogin.State.{Step, Ceremony, Page}
use oxidt_kit.LocalLogin.Ui.{show, set_loading, show_error}
use oxidt_kit.LocalLogin.Flow.{
  dismiss_prompt, prompt_dismissed, finish, route_after_terms, route_if_present,
  proceed_after_login,
}
use oxidt_kit.LocalLogin.Ceremony.{stale, on_verdict, refusal, refuse}
use oxidt_kit.LocalLogin.Forms.{on_otp, on_password, cleared}
use oxidt_kit.LocalLogin.Actions.{on_enrolled, offer_skip, accepted, on_terms}
use oxidt_kit.LocalLogin.Mails.Kept.{
  asked, Asks, keeps, extended, ◌⊙◌, if-asked, show-asked, set_loading-asked, leave-asked,
  refuse-asked, give_up-asked,
}
use oxidt_kit.LocalLogin.Mails.Handlers.{back_to-asked, failed-asked}

-- What follows a sign-in.
pub finish-asked : (url : String) (p : Page) → Asks (asked p) (finish url p)
unfolding finish
finish-asked url p = extended (show Step.success p) (show-asked Step.success p) refl

route_if_present-asked :
    (o : Option String) (offer : Bool) (p : Page) → Asks (asked p) (route_if_present o offer p)
unfolding route_if_present route_after_terms
route_if_present-asked none offer p = keeps refl
route_if_present-asked (some url) offer p =
    if-asked (nonempty_string url) _ p
      (if-asked (offer && p.setting.can_create && not (prompt_dismissed p)) _ _
        (set_loading-asked false _ ⊙ show-asked Step.offer _) (finish-asked url p))
      (keeps refl)

proceed_after_login-asked :
    (resp : Response) (p : Page) → Asks (asked p) (proceed_after_login resp p)
unfolding proceed_after_login
proceed_after_login-asked resp p =
    if-asked (is_true resp.needs_tos_acceptance) _ _
      (set_loading-asked false _ ⊙ show-asked Step.tos _)
      (route_if_present-asked resp.redirect_url _ p)

pub on_verdict-asked :
    (c : Ceremony) (mine : ℕ) (r : Outcome Response) (p : Page)
    → Asks (asked p) (on_verdict c mine r p)
unfolding on_verdict
on_verdict-asked c mine (thrown msg) p = give_up-asked c mine msg p
on_verdict-asked c mine (ok resp) p = if-asked (stale mine p) _ _ (leave-asked c p) (
    if-asked (truthy resp.success) _ _
      (leave-asked c (proceed_after_login resp p) ⊙ proceed_after_login-asked resp p)
      (give_up-asked c mine (or_default resp.error (refusal c)) (refuse c p) ⊙ refuse-asked c p))

pub on_otp-asked : (r : Outcome Response) (p : Page) → Asks (asked p) (on_otp r p)
unfolding on_otp
on_otp-asked (thrown msg) p = back_to-asked Step.otp msg p
on_otp-asked (ok resp) p =
    if-asked (truthy resp.success) _ _ (proceed_after_login-asked resp p)
      (back_to-asked Step.otp _ p)

pub on_password-asked : (r : Outcome Response) (p : Page) → Asks (asked p) (on_password r p)
unfolding on_password
on_password-asked (thrown msg) p = failed-asked (some msg) (cleared p)
on_password-asked (ok resp) p =
    if-asked (truthy resp.success) _ _ (proceed_after_login-asked resp (cleared p))
      (failed-asked _ (cleared p))

accepted-asked : (resp : Response) (p : Page) → Asks (asked p) (accepted resp p)
unfolding show_error
accepted-asked resp p =
    if-asked (truthy resp.success) _ _
      (route_if_present-asked resp.redirect_url p.offer_after_terms p) (keeps refl)

pub on_terms-asked : (r : Outcome Response) (p : Page) → Asks (asked p) (on_terms r p)
unfolding on_terms
on_terms-asked (thrown msg) p = failed-asked (some msg) p
on_terms-asked (ok resp) p = set_loading-asked false (accepted resp p) ⊙ accepted-asked resp p

pub on_enrolled-asked : (r : Outcome Response) (p : Page) → Asks (asked p) (on_enrolled r p)
unfolding on_enrolled
on_enrolled-asked (thrown msg) p = failed-asked (some msg) p
on_enrolled-asked (ok resp) p =
    if-asked (truthy resp.success) _ _
      (finish-asked _ (set_loading false p) ⊙ set_loading-asked false p) (failed-asked _ p)

pub offer_skip-asked : (p : Page) → Asks (asked p) (offer_skip p)
unfolding offer_skip dismiss_prompt show_error
offer_skip-asked p = finish-asked _ (show_error none (dismiss_prompt p))
