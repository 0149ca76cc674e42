-- ===== src/LocalLogin/Progress/Handlers.antt =====
-- What the handlers of forms and buttons do to the gauge, and which task follows which.
use oxidt_kit.Kit.{
  ℕ, suc, ◌-◌, ◌<◌, ◌≡◌, refl, ltb, not, Bool, true, false, Text, Option, none, some, List, arith,
  if◌then◌else◌,
}
use oxidt_kit.Browser.Http.{Response, Outcome, ok, thrown, truthy, is_true, is_not_false}
use oxidt_kit.Browser.Webauthn.{
  RawOptions, Creation, RawCreation, Challenge, Attestation, creation_options,
}
use oxidt_kit.LocalLogin.State.{
  Step, Task, await_start, await_captcha_token, await_captcha, await_enroll_options, await_created,
  await_enrolled, Settled, given, abort_error, not_allowed_error, other_error, Page,
}
use oxidt_kit.LocalLogin.Ui.{set_loading, offer_code}
use oxidt_kit.LocalLogin.Flow.{proceed_after_login}
use oxidt_kit.LocalLogin.Forms.{
  captcha_token, captcha_with, captcha_round, on_captcha_token, complete_captcha, on_captcha,
  start_with, on_start, on_otp, cleared, on_password,
}
use oxidt_kit.LocalLogin.Actions.{
  on_code, on_resend, on_back_release, enroll_failed, create_with, on_enroll_options, on_created,
  on_enrolled, on_terms,
}
use oxidt_kit.LocalLogin.Progress.Gauge.{
  rank, gauge, IsFinished, Turn, finishes, Goes, finished, waits, Lower, if-IsFinished, if-Goes,
  set_loading-gauge, off-IsFinished, shown-IsFinished, Turn-along, Turn-off,
}
use oxidt_kit.LocalLogin.Progress.Ceremonies.{
  trigger_passkey-Turn, finish-IsFinished, Leads, proceed_after_login-IsFinished,
}

-- The captcha loop.
captcha_with-Goes :
    (t : Task) (i : ℕ) (o : Option Text) (p : Page)
    → suc (60 - i) < rank t
    → Goes (Lower t) p.tasks (captcha_with i o p)
captcha_with-Goes t i none p lt = waits (await_captcha_token i) refl (refl, lt)
captcha_with-Goes t i (some token) p lt = waits await_captcha refl (refl, omega (arith, lt))

pub captcha_round-Goes :
    (t : Task) (i : ℕ) (p : Page)
    → (ltb i 60 ≡ true → suc (60 - i) < rank t)
    → Goes (Lower t) p.tasks (captcha_round i p)
unfolding captcha_round
captcha_round-Goes t i p lt =
    if-Goes (ltb i 60) _ _ (λ e. captcha_with-Goes t i (captcha_token p) p (lt e))
      (finished (off-IsFinished _))

pub on_captcha_token-Goes :
    (i : ℕ) (p : Page) → Goes (Lower (await_captcha_token i)) p.tasks (on_captcha_token i p)
unfolding on_captcha_token
on_captcha_token-Goes i p = captcha_round-Goes (await_captcha_token i) (suc i) p (λ e. ground arith)

pub on_captcha-IsFinished : (r : Outcome Response) (p : Page) → IsFinished (on_captcha r p)
unfolding on_captcha
on_captcha-IsFinished (thrown msg) p = off-IsFinished _
on_captcha-IsFinished (ok resp) p =
    if-IsFinished (truthy resp.success) _ _ (off-IsFinished _) (off-IsFinished _)

-- The start of a sign-in.
start_with-IsFinished :
    (resp : Response) (o : Option RawOptions) (p : Page) → IsFinished (start_with resp o p)
start_with-IsFinished resp (some raw) p =
    Turn-off refl
      (Turn-along (set_loading-gauge false _) (trigger_passkey-Turn (set_loading false _)))
start_with-IsFinished resp none p =
    if-IsFinished (truthy resp.password) _ _ (off-IsFinished _)
      (if-IsFinished (truthy resp.otp_sent) _ _ (off-IsFinished _) (off-IsFinished _))

pub on_start-Goes :
    (r : Outcome Response) (p : Page) → Goes (Lower await_start) p.tasks (on_start r p)
unfolding on_start offer_code complete_captcha
on_start-Goes (thrown msg) p = finished (off-IsFinished _)
on_start-Goes (ok resp) p =
    let q =
      offer_code (is_not_false resp.otp)
        (record p { new_user_hidden = not (truthy resp.is_new_user) }) in
    if-Goes (is_true resp.captcha_required) (complete_captcha q) _
      (λ e. captcha_round-Goes await_start 0 q (λ h. omega arith))
      (finished (start_with-IsFinished resp resp.public_key_options _))

-- A sign-in, whose success leads somewhere.
abbrev pub Answered : Outcome Response → Type 0
Answered (thrown msg) = Unit
Answered (ok resp) = truthy resp.success ≡ true → Leads resp

granted-IsFinished :
    (b : Bool) (resp : Response) (p q : Page)
    → (b ≡ true → Leads resp)
    → IsFinished q
    → IsFinished (if b then proceed_after_login resp p else q)
granted-IsFinished true resp p q h k = proceed_after_login-IsFinished resp p (h refl)
granted-IsFinished false resp p q h k = k

pub on_otp-IsFinished : (r : Outcome Response) (p : Page) → Answered r → IsFinished (on_otp r p)
unfolding on_otp
on_otp-IsFinished (thrown msg) p h = off-IsFinished _
on_otp-IsFinished (ok resp) p h =
    granted-IsFinished (truthy resp.success) resp p _ h (off-IsFinished _)

pub on_password-IsFinished :
    (r : Outcome Response) (p : Page) → Answered r → IsFinished (on_password r p)
unfolding on_password
on_password-IsFinished (thrown msg) p h = off-IsFinished _
on_password-IsFinished (ok resp) p h =
    granted-IsFinished (truthy resp.success) resp (cleared p) _ h (off-IsFinished _)

-- The buttons' replies.
pub on_code-IsFinished : (r : Outcome Response) (p : Page) → IsFinished (on_code r p)
unfolding on_code
on_code-IsFinished (thrown msg) p = off-IsFinished _
on_code-IsFinished (ok resp) p = off-IsFinished _

pub on_resend-IsFinished : (r : Outcome Response) (p : Page) → IsFinished (on_resend r p)
unfolding on_resend
on_resend-IsFinished (thrown msg) p = off-IsFinished _
on_resend-IsFinished (ok resp) p = off-IsFinished _

pub on_terms-IsFinished : (r : Outcome Response) (p : Page) → IsFinished (on_terms r p)
unfolding on_terms
on_terms-IsFinished (thrown msg) p = off-IsFinished _
on_terms-IsFinished (ok resp) p = off-IsFinished _

pub on_back_release-Turn : (p : Page) → Turn (gauge p) (on_back_release p)
unfolding on_back_release
on_back_release-Turn p =
    finishes (shown-IsFinished Step.email (set_loading false p) (off-IsFinished p))

create_with-Goes :
    (o : Option (Creation (List ℕ) Challenge)) (p : Page)
    → Goes (Lower await_enroll_options) p.tasks (create_with o p)
create_with-Goes none p = finished (off-IsFinished _)
create_with-Goes (some request) p = waits await_created refl (refl, omega arith)

create_from-Goes :
    (o : Option RawCreation) (p : Page)
    → Goes (Lower await_enroll_options) p.tasks (elim o [
      | none ↦ enroll_failed p.setting.no_options_error p
      | some r ↦ create_with (creation_options p.setting.atob r) p
    ])
create_from-Goes none p = finished (off-IsFinished _)
create_from-Goes (some r) p = create_with-Goes (creation_options p.setting.atob r) p

pub on_enroll_options-Goes :
    (r : Outcome Response) (p : Page)
    → Goes (Lower await_enroll_options) p.tasks (on_enroll_options r p)
unfolding on_enroll_options
on_enroll_options-Goes (thrown msg) p = finished (off-IsFinished _)
on_enroll_options-Goes (ok resp) p =
    if-Goes (not p.setting.can_create) _ _ (λ e. finished (off-IsFinished _))
      (create_from-Goes resp.creation p)

pub on_created-Goes :
    (r : Settled (Attestation (List ℕ))) (p : Page)
    → Goes (Lower await_created) p.tasks (on_created r p)
unfolding on_created
on_created-Goes (given c) p = waits await_enrolled refl (refl, omega arith)
on_created-Goes abort_error p = finished (off-IsFinished _)
on_created-Goes not_allowed_error p = finished (off-IsFinished _)
on_created-Goes (other_error msg) p = finished (off-IsFinished _)

pub on_enrolled-IsFinished : (r : Outcome Response) (p : Page) → IsFinished (on_enrolled r p)
unfolding on_enrolled
on_enrolled-IsFinished (thrown msg) p = off-IsFinished _
on_enrolled-IsFinished (ok resp) p =
    if-IsFinished (truthy resp.success) _ _ (finish-IsFinished _ (set_loading false p))
      (off-IsFinished _)
