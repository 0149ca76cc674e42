-- ===== src/FerriskeyLogin/Password.antt =====
-- The password does not stay in its field.
use oxidt_kit.Kit.{
  ◌≡◌, refl, Bool, true, false, String, nonempty_string, Option, none, some, [], if◌then◌else◌,
}
use oxidt_kit.Browser.Http.{Response, Outcome, ok, thrown, truthy, is_true, or_default, post_json}
use oxidt_kit.FerriskeyLogin.State.{Step, await_password, Reply, Page}
use oxidt_kit.FerriskeyLogin.Ui.{
  show, mount_captcha, set_loading, show_error, show_success, clear_alerts,
}
use oxidt_kit.FerriskeyLogin.Ceremony.{leave_for, proceed_after_login, cancel_ceremony, back_to}
use oxidt_kit.FerriskeyLogin.Forms.{cleared, on_password}
use oxidt_kit.FerriskeyLogin.Run.{back, use_password, resume}

abbrev IsCleared : Page → Type 0
IsCleared p = p.password_field ≡ []

if-IsCleared : (b : Bool) (x y : Page) → IsCleared x → IsCleared y → IsCleared (if b then x else y)
if-IsCleared true x y h g = h
if-IsCleared false x y h g = g

show-IsCleared : (name : Step) (p : Page) → IsCleared p → IsCleared (show name p)
unfolding show mount_captcha
show-IsCleared name p h = if-IsCleared _ _ _ (if-IsCleared p.setting.has_captcha _ _ h h) h

set_loading-IsCleared : (on : Bool) (p : Page) → IsCleared p → IsCleared (set_loading on p)
unfolding set_loading
set_loading-IsCleared on p h = h

back_to-IsCleared :
    (name : Step) (msg : String) (p : Page) → IsCleared p → IsCleared (back_to name msg p)
unfolding show_error
back_to-IsCleared name msg p h =
    set_loading-IsCleared false (show name (show_error (some msg) p))
      (show-IsCleared name (show_error (some msg) p) h)

leave_for-IsCleared : (o : Option String) (p : Page) → IsCleared p → IsCleared (leave_for o p)
leave_for-IsCleared none p h = h
leave_for-IsCleared (some url) p h =
    if-IsCleared (nonempty_string url) _ p (show-IsCleared Step.success p h) h

proceed-IsCleared :
    (resp : Response) (p : Page) → IsCleared p → IsCleared (proceed_after_login resp p)
unfolding proceed_after_login
proceed-IsCleared resp p h =
    if-IsCleared (is_true resp.needs_tos_acceptance) _ _
      (set_loading-IsCleared false (show Step.tos p) (show-IsCleared Step.tos p h))
      (leave_for-IsCleared resp.redirect_url p h)

on_password-IsCleared : (o : Outcome Response) (p : Page) → IsCleared (on_password o p)
unfolding on_password
on_password-IsCleared (thrown msg) p = back_to-IsCleared Step.password msg (cleared p) refl
on_password-IsCleared (ok resp) p =
    if-IsCleared (truthy resp.success) _ _ (proceed-IsCleared resp (cleared p) refl) (
      back_to-IsCleared Step.password (or_default resp.error "Password verification failed")
        (cleared p) refl)

-- The field keeps no password that was tried: it is empty after every reply to the password, be it a
-- success, a refusal or a failed request, and after "Back" and "Use password" too.
pub password-cleared :
    (r : Reply await_password) (p : Page)
    → ((resume await_password r p).password_field ≡ [])
      × ((back p).password_field ≡ [])
      × ((use_password p).password_field ≡ [])
unfolding resume back use_password clear_alerts show_error show_success cancel_ceremony
password-cleared r p = (
  on_password-IsCleared (post_json r) p,
  set_loading-IsCleared false _ (show-IsCleared Step.email _ refl),
  show-IsCleared Step.password _ refl,
)
